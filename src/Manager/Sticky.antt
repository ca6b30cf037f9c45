-- ===== src/Manager/Sticky.antt =====
-- manager_server.cpp: an app keeps its coordinator.
use mathlib.Core.Path.{subst}
use pheromone.Base.{
  ℕ, ◌≡◌, refl, Bytes, Address, Bool, List, [], ◌∷◌, Option, some, none, bytes_eq, Holds,
  Holds-bind, Holds-both, Holds-trivial, get_elem?, ==_iff, arith,
}
use pheromone.Base.Maps.{Map, get, put, get-put, get-put_self}
use pheromone.Manager.{
  Manager, CoordResponse, Event, coord_sync, coord_query, assign_coord, answer, response, handle,
  serve,
}

module _ (rand_r : ℕ → ℕ × ℕ) (external_user : Bool) where
  -- Every app that has a coordinator keeps it.
  abbrev Keeps : Manager → Manager → Type 0
  Keeps m m' =
      (app_name : Bytes) (coord : Address × ℕ)
      → get m.app_coord_map app_name ≡ some coord
      → get m'.app_coord_map app_name ≡ some coord

  put-Keeps :
      (m : Map Bytes (Address × ℕ)) (app_name other : Bytes) (chosen coord : Address × ℕ)
      → get m app_name ≡ none
      → get m other ≡ some coord
      → get (put m app_name chosen) other ≡ some coord
  put-Keeps m app_name other chosen coord new known =
      ground (arith, get-put m app_name other chosen, ==_iff app_name other)

  answer-Keeps :
      (app_name : Bytes) (m : Manager) (known : Option (Address × ℕ))
      → get m.app_coord_map app_name ≡ known
      → Holds
          (λ r. Keeps m r.1 × (get r.1.app_coord_map app_name ≡ some r.0))
          (answer rand_r external_user app_name m known)
  unfolding assign_coord
  answer-Keeps app_name m (some coord) e = (λ other c h. h, e)
  answer-Keeps app_name m none e =
      Holds-bind (λ c. Unit) (λ r. Keeps m r.1 × (get r.1.app_coord_map app_name ≡ some r.0))
        (get_elem? m.coord_ips _) _ (Holds-trivial _)
        (λ c u. (
          λ other coord h. put-Keeps m.app_coord_map app_name other _ coord e h,
          get-put_self m.app_coord_map app_name _,
        ))

  -- The coordinator that a list of responses names first.
  abbrev named : List CoordResponse → Option (Address × ℕ)
  named [] = none
  named (r ∷ rs) = some (r.coord_ip, r.thread_id)

  query-Keeps :
      (app_name request_id : Bytes) (m : Manager)
      → Holds
          (λ x. Keeps m x.0 × (get x.0.app_coord_map app_name ≡ named x.1))
          (handle rand_r external_user m (coord_query app_name request_id))
  unfolding handle
  query-Keeps app_name request_id m =
      Holds-bind (λ r. Keeps m r.1 × (get r.1.app_coord_map app_name ≡ some r.0))
        (λ x. Keeps m x.0 × (get x.0.app_coord_map app_name ≡ named x.1))
        (answer rand_r external_user app_name m (get m.app_coord_map app_name)) _
        (answer-Keeps app_name m (get m.app_coord_map app_name) refl) (λ r h. h)

  handle-Keeps :
      (e : Event) (m : Manager) → Holds (λ x. Keeps m x.0) (handle rand_r external_user m e)
  unfolding handle
  handle-Keeps (coord_sync c) m = λ app_name coord h. h
  handle-Keeps (coord_query app_name request_id) m =
      Holds-both (λ x. Unit) (λ x. Keeps m x.0 × (get x.0.app_coord_map app_name ≡ named x.1))
        (λ x. Keeps m x.0) (handle rand_r external_user m (coord_query app_name request_id))
        (Holds-trivial _) (query-Keeps app_name request_id m) (λ x u h. h.0)

  serve-Keeps :
      (es : List Event) (m : Manager) → Holds (λ x. Keeps m x.0) (serve rand_r external_user m es)
  unfolding serve
  serve-Keeps [] m = λ app_name coord h. h
  serve-Keeps (e ∷ es) m =
      Holds-bind (λ x. Keeps m x.0) (λ x. Keeps m x.0) (handle rand_r external_user m e) _
        (handle-Keeps e m)
        λ x k.
          Holds-bind (λ y. Keeps x.0 y.0) (λ y. Keeps m y.0) (serve rand_r external_user x.0 es) _
            (serve-Keeps es x.0) (λ y k' app_name coord h. k' app_name coord (k app_name coord h))

  again :
      (m : Manager) (app_name request_id : Bytes) (coord : Address × ℕ)
      → get m.app_coord_map app_name ≡ some coord
      → handle rand_r external_user m (coord_query app_name request_id)
        ≡ some (m, response coord request_id ∷ [])
  unfolding handle
  again m app_name request_id coord h = rw h refl

  -- Once a query for an app has been answered, every later query for it is answered with the same
  -- coordinator and leaves the manager as it is, whatever came between while nothing crashed.
  pub handle-serve :
      (m m' m'' : Manager) (app_name request_id later_id : Bytes) (events : List Event)
      (r : CoordResponse) (responses : List CoordResponse)
      → handle rand_r external_user m (coord_query app_name request_id) ≡ some (m', r ∷ [])
      → serve rand_r external_user m' events ≡ some (m'', responses)
      → handle rand_r external_user m'' (coord_query app_name later_id)
        ≡ some (m'', record r { request_id = later_id } ∷ [])
  handle-serve m m' m'' app_name request_id later_id events r responses answered served =
      let first =
        subst (Holds (λ x. Keeps m x.0 × (get x.0.app_coord_map app_name ≡ named x.1))) answered
          (query-Keeps app_name request_id m) in
      let kept = subst (Holds (λ x. Keeps m' x.0)) served (serve-Keeps events m') in
      again m'' app_name later_id (r.coord_ip, r.thread_id)
        (kept app_name (r.coord_ip, r.thread_id) first.1)
