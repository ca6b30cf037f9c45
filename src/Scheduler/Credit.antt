-- ===== src/Scheduler/Credit.antt =====
-- scheduler_server.cpp: an executor is sent a call only when it is free. What the parts of a pass do
-- to the calls and the free executors.
pub mod Moves
pub mod Objects
pub mod Responses
pub mod Queues
pub mod Passes
use mathlib.Core.Path.{subst}
use pheromone.Base.{
  ℕ, zero, suc, ◌+◌, ◌%◌, ◌≡◌, refl, sym, ap, Bytes, Session, Bool, true, false, ◌&&◌, ◌||◌, List,
  [], ◌∷◌, ◌++◌, Option, some, none, arith, nat_eq, nat_beq, nat_beq_iff, ltb, All, Holds,
  get_elem?, ==_iff, Bool-cases, inl, inr, if◌then◌else◌, ◌>>=◌, length, bytes_eq,
}
use pheromone.Base.Sets.{contains}
use pheromone.Base.Maps.{Map, get, put, get_or, Distinct, get-put, Distinct-put}
use pheromone.Base.Runs.{
  Run, skip, modify, emit, given, ◌▷◌, each, Keeps, Keeps-then, Keeps-each, Keeps-if, Keeps-given,
}
use pheromone.Scheduler.Types.{
  Scheduler, Settings, Effect, send_to_executer, ExecutorStatus, empty, available, await, busy,
}
use pheromone.Scheduler.Statuses.{find_executors, is_free, is_available, is_empty_status}
use pheromone.Scheduler.Schedule.{
  send_to, assign, start_on, schedule_func_call, postpone, note_rerun, pick, call_message, warmed,
  update_at, forward_args,
}
use pheromone.Scheduler.Forward.{
  forward_call_via_helper, pack, real_data, total_data_size, is_positive,
}

abbrev pub is_call_message : Bytes → Bool
is_call_message [] = false
is_call_message (type ∷ msg) = nat_beq type 1

abbrev pub is_call_to : ℕ → Effect → ℕ
is_call_to e (send_to_executer id msg) = if is_call_message msg && nat_beq id e then 1 else 0
is_call_to e _ = 0

-- The calls that an executor is sent.
abbrev pub calls_to : ℕ → List Effect → ℕ
calls_to e [] = 0
calls_to e (x ∷ xs) = is_call_to e x + calls_to e xs

pub calls_to-append :
    (e : ℕ) (xs ys : List Effect) → calls_to e (xs ++ ys) ≡ calls_to e xs + calls_to e ys
calls_to-append e [] ys = omega arith
calls_to-append e (x ∷ xs) ys = omega (arith, calls_to-append e xs ys)

abbrev pub IsFreeIn : Map ℕ ExecutorStatus → ℕ → Type 0
IsFreeIn m id = is_free (get_or (get m id) busy) ≡ true

-- 1 if the executor is free
abbrev pub credit : ℕ → Map ℕ ExecutorStatus → ℕ
credit e m = if is_free (get_or (get m e) busy) then 1 else 0

-- The calls that an executor was sent make up for its being free before and not after.
abbrev pub Spends : ℕ → Scheduler → Scheduler → List Effect → Type 0
Spends e s t effects =
    Distinct s.executor_status_map
    → Distinct t.executor_status_map
      × (calls_to e effects + credit e t.executor_status_map ≡ credit e s.executor_status_map)

IsFreeIn-more :
    (m : Map ℕ ExecutorStatus) (id : ℕ) (status : ExecutorStatus)
    → get m id ≡ none
    → (x : ℕ) → IsFreeIn m x
    → IsFreeIn ((id, status) ∷ m) x
unfolding get
IsFreeIn-more m id status new x free = ground (arith, ==_iff id x)

All-mono : {P Q : ℕ → Type 0} → ((x : ℕ) → P x → Q x) → (xs : List ℕ) → All P xs → All Q xs
All-mono f [] h = tt
All-mono f (x ∷ xs) h = (f x h.0, All-mono f xs h.1)

abbrev AllFound : Map ℕ ExecutorStatus → Option ℕ × List ℕ → Type 0
AllFound m (found, cold) = Holds (IsFreeIn m) found × All (IsFreeIn m) cold

IsFreeIn-here :
    (m : Map ℕ ExecutorStatus) (id : ℕ) (status : ExecutorStatus)
    → is_free status ≡ true
    → IsFreeIn ((id, status) ∷ m) id
unfolding get
IsFreeIn-here m id status free = ground (arith, ==_iff id id)

Holds-mono : {P Q : ℕ → Type 0} → ((x : ℕ) → P x → Q x) → (o : Option ℕ) → Holds P o → Holds Q o
Holds-mono f none h = tt
Holds-mono f (some x) h = f x h

AllFound-more :
    (m : Map ℕ ExecutorStatus) (id : ℕ) (status : ExecutorStatus) (r : Option ℕ × List ℕ)
    → get m id ≡ none
    → AllFound m r
    → AllFound ((id, status) ∷ m) r
AllFound-more m id status r new h = (
  Holds-mono (IsFreeIn-more m id status new) r.0 h.0,
  All-mono (IsFreeIn-more m id status new) r.1 h.1,
)

AllFound-if :
    (m : Map ℕ ExecutorStatus) (b : Bool) (x y : Option ℕ × List ℕ)
    → (b ≡ true → AllFound m x)
    → AllFound m y
    → AllFound m (if b then x else y)
AllFound-if m true x y h k = h refl
AllFound-if m false x y h k = k

-- Only a free executor joins the cold ones.
AllFound-cold :
    (m : Map ℕ ExecutorStatus) (id : ℕ) (status : ExecutorStatus) (b : Bool) (r : Option ℕ × List ℕ)
    → get m id ≡ none
    → (b ≡ true → is_free status ≡ true)
    → AllFound m r
    → AllFound ((id, status) ∷ m) (if b then (r.0, id ∷ r.1) else r)
AllFound-cold m id status true r new free h =
    let h' = AllFound-more m id status r new h in
    (h'.0, (IsFreeIn-here m id status (free refl), h'.1))
AllFound-cold m id status false r new free h = AllFound-more m id status r new h

cold-free :
    (shared : Bool) (status : ExecutorStatus)
    → (is_empty_status status || (shared && is_available status)) ≡ true
    → is_free status ≡ true
cold-free shared empty h = refl
cold-free shared available h = refl
cold-free true await h = h
cold-free false await h = h
cold-free true busy h = h
cold-free false busy h = h

warm-free :
    (status : ExecutorStatus) (b : Bool) → (is_available status && b) ≡ true → is_free status ≡ true
warm-free available b h = refl
warm-free empty b h = refl
warm-free await b h = h
warm-free busy b h = h

find_executors-AllFound :
    (shared : Bool) (warm : List ℕ) (m : Map ℕ ExecutorStatus)
    → Distinct m
    → AllFound m (find_executors shared warm m)
unfolding find_executors
find_executors-AllFound shared warm [] d = (tt, tt)
find_executors-AllFound shared warm ((id, status) ∷ m) d =
    let rest = find_executors-AllFound shared warm m d.1 in
    AllFound-if ((id, status) ∷ m) (is_available status && contains warm id) _ _
      (λ h. (IsFreeIn-here m id status (warm-free status _ h), tt))
      (AllFound-cold m id status (is_empty_status status || (shared && is_available status))
        (find_executors shared warm m) d.0 (cold-free shared status) rest)

All-get_elem? : (P : ℕ → Type 0) (xs : List ℕ) (i : ℕ) → All P xs → Holds P (get_elem? xs i)
All-get_elem? P [] i h = tt
All-get_elem? P (x ∷ xs) zero h = h.0
All-get_elem? P (x ∷ xs) (suc i) h = All-get_elem? P xs i h.1

pick-IsFreeIn :
    (m : Map ℕ ExecutorStatus) (r : ℕ) (found : Option ℕ × List ℕ)
    → AllFound m found
    → Holds (IsFreeIn m) (pick r found)
pick-IsFreeIn m r (some id, cold) h = h.0
pick-IsFreeIn m r (none, cold) h = All-get_elem? (IsFreeIn m) cold _ h.1

-- The executor that schedule_func_call picks is free.
pub picked-IsFreeIn :
    (shared : Bool) (warm : List ℕ) (m : Map ℕ ExecutorStatus) (r : ℕ)
    → Distinct m
    → Holds (IsFreeIn m) (pick r (find_executors shared warm m))
picked-IsFreeIn shared warm m r d =
    pick-IsFreeIn m r (find_executors shared warm m) (find_executors-AllFound shared warm m d)

-- What leaves the executors as they are and sends no call.
pub Spends-quiet :
    (e : ℕ) (s t : Scheduler) (effects : List Effect)
    → t.executor_status_map ≡ s.executor_status_map
    → calls_to e effects ≡ 0
    → Spends e s t effects
Spends-quiet e s t effects same quiet d =
    (subst (λ m. Distinct m) (sym same) d, rw (same, quiet) (omega arith))

pub Spends-still : (e : ℕ) (s : Scheduler) → Spends e s s []
Spends-still e s = Spends-quiet e s s [] refl refl

pub Spends-joins :
    (e : ℕ) (s t u : Scheduler) (xs ys : List Effect)
    → Spends e s t xs
    → Spends e t u ys
    → Spends e s u (xs ++ ys)
Spends-joins e s t u xs ys p q d =
    let (d', a) = p d in let (d'', b) = q d' in (d'', omega (arith, a, b, calls_to-append e xs ys))

pub credit-put :
    (e id : ℕ) (status : ExecutorStatus) (m : Map ℕ ExecutorStatus)
    → credit e (put m id status)
      ≡ (if nat_beq id e then (if is_free status then 1 else 0) else credit e m)
credit-put e id status m = ground (arith, get-put m id e status)

credit-IsFreeIn :
    (e id : ℕ) (m : Map ℕ ExecutorStatus) → IsFreeIn m id → nat_beq id e ≡ true → credit e m ≡ 1
credit-IsFreeIn e id m f h = ground (arith, nat_beq_iff id e)

-- A free executor that is sent a call is awaited.
pub assign-Spends :
    (st : Settings) (now e id : ℕ) (msg : Bytes) (s : Scheduler)
    → is_call_message msg ≡ true
    → (Distinct s.executor_status_map → IsFreeIn s.executor_status_map id)
    → Keeps (Spends e) s (assign st now id msg)
unfolding assign send_to ◌▷◌
assign-Spends st now e id msg s c f = elim (Bool-cases (ltb id st.executor_num)) [
  | inr h ↦ rw h tt
  | inl h ↦ rw h (λ d. (
    Distinct-put s.executor_status_map id await d,
    ground (
      arith,
      c,
      credit-put e id await s.executor_status_map,
      credit-IsFreeIn e id s.executor_status_map (f d),
    ),
  ))
]
