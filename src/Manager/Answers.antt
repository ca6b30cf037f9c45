-- ===== src/Manager/Answers.antt =====
-- manager_server.cpp: with a coordinator, every query is answered.
use pheromone.Base.{
  ℕ, zero, suc, ◌%◌, ◌<◌, ◌≤◌, ◌≡◌, refl, Bytes, Address, Bool, List, [], ◌∷◌, ◌++◌, Option, some,
  none, bytes_eq, ◌>>=◌, get_elem?, length, length-append, arith,
}
use pheromone.Base.Maps.{get}
use pheromone.Manager.{
  Manager, CoordIp, CoordResponse, Event, coord_sync, coord_query, insert_coord, assign_coord,
  answer, response, handle, serve,
}

abbrev pub queries : List Event → ℕ
queries [] = 0
queries (coord_sync c ∷ es) = queries es
queries (coord_query app_name request_id ∷ es) = suc (queries es)

length-insert_coord : (cs : List CoordIp) (c : CoordIp) → length cs ≤ length (insert_coord cs c)
unfolding insert_coord
length-insert_coord [] c = omega arith
length-insert_coord (x ∷ cs) c = ground (arith, length-insert_coord cs c)

get_elem?-found :
    {A : Type 0} (xs : List A) (i : ℕ) → i < length xs → (a : A) × (get_elem? xs i ≡ some a)
get_elem?-found [] i h = absurd (omega (arith, h))
get_elem?-found (x ∷ xs) zero h = (x, refl)
get_elem?-found (x ∷ xs) (suc i) h = get_elem?-found xs i (omega (arith, h))

module _ (rand_r : ℕ → ℕ × ℕ) (external_user : Bool) where
  -- The run ends, with so many responses.
  abbrev IsAnswered : ℕ → Manager → Option (Manager × List CoordResponse) → Type 0
  IsAnswered n m o =
      (m' : Manager) × (responses : List CoordResponse) × (o ≡ some (m', responses))
      × (length responses ≡ n)
      × (length m.coord_ips ≤ length m'.coord_ips)

  answer_known :
      (app_name request_id : Bytes) (m : Manager) (known : Option (Address × ℕ))
      → 0 < length m.coord_ips
      → IsAnswered 1 m (
          answer rand_r external_user app_name m known >>= λ r.
          some (r.1, response r.0 request_id ∷ []))
  unfolding assign_coord
  answer_known app_name request_id m (some coord) h =
      (m, response coord request_id ∷ [], refl, refl, omega arith)
  answer_known app_name request_id m none h =
      let (c, found) =
        get_elem?-found m.coord_ips ((rand_r m.seed).0 % length m.coord_ips) (ground (arith, h)) in
      rw found (_, _, refl, refl, omega arith)

  handle-IsAnswered :
      (e : Event) (m : Manager)
      → 0 < length m.coord_ips
      → IsAnswered (queries (e ∷ [])) m (handle rand_r external_user m e)
  unfolding handle
  handle-IsAnswered (coord_sync c) m h = (_, [], refl, refl, length-insert_coord m.coord_ips c)
  handle-IsAnswered (coord_query app_name request_id) m h =
      answer_known app_name request_id m (get m.app_coord_map app_name) h

  serve-IsAnswered :
      (es : List Event) (m : Manager)
      → 0 < length m.coord_ips
      → IsAnswered (queries es) m (serve rand_r external_user m es)
  unfolding serve
  serve-IsAnswered [] m h = (m, [], refl, refl, omega arith)
  serve-IsAnswered (e ∷ es) m h =
      let (m', first, done, one, grown) = handle-IsAnswered e m h in
      let (m'', more, done', rest, grown') = serve-IsAnswered es m' (omega (arith, h, grown)) in
      rw (done, done')
        (m'', first ++ more, refl, counted e es first more one rest, omega (arith, grown, grown'))
    where
      counted :
          (e : Event) (es : List Event) (first more : List CoordResponse)
          → length first ≡ queries (e ∷ [])
          → length more ≡ queries es
          → length (first ++ more) ≡ queries (e ∷ es)
      counted (coord_sync c) es first more p q = omega (arith, p, q, length-append first more)
      counted (coord_query app_name request_id) es first more p q =
          omega (arith, p, q, length-append first more)

  -- Once the manager has a coordinator it never crashes, and whatever comes in whatever order, every
  -- query gets one response.
  pub serve-answers :
      (events : List Event) (m : Manager)
      → 0 < length m.coord_ips
      → (m' : Manager) × (responses : List CoordResponse) × (serve rand_r external_user m events
          ≡ some (m', responses))
        × (length responses ≡ queries events)
  serve-answers events m h =
      let (m', responses, done, count, grown) = serve-IsAnswered events m h in
      (m', responses, done, count)
