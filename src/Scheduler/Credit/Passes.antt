-- ===== src/Scheduler/Credit/Passes.antt =====
-- scheduler_server.cpp, run(): a pass, and the run of the scheduler.
use mathlib.Core.Path.{subst}
use pheromone.Base.{
  nat_beq_iff, ◌<◌, ℕ, zero, suc, ◌+◌, ◌%◌, ◌≤◌, ◌≡◌, refl, Bytes, ◌&&◌, List, [], ◌∷◌, ◌++◌,
  Option, some, none, arith, Holds, Holds-bind, Holds-both, Holds-trivial, get_elem?, Bool-cases,
  inl, inr, nat_eq, nat_beq, leb, if◌then◌else◌,
}
use pheromone.Base.Maps.{Map, get, get_or, Distinct, Distinct-put}
use pheromone.Base.Runs.{Run, modify, ◌▷◌, each, Keeps-if, Keeps-given}
use pheromone.Common.{delimiter_char}
use pheromone.Common.Split.{split}
use pheromone.Trigger.Primitives.{Wires}
use pheromone.Coordinator.Types.{UpdateCoordMsg}
use pheromone.Helper.Updates.{update_coord_msg}
use pheromone.Helper.Executors.{update_coord_msg-executors}
use pheromone.Scheduler.Objects.{send_object}
use pheromone.Scheduler.Types.{
  all_await, await, ExecutorStatus, Scheduler, Settings, Effect, busy, empty,
}
use pheromone.Scheduler.Executors.{
  on_local_get, on_kvs_get, text_of, get_message, object_message, busy_flag, available_flag,
  executor_message, freed, on_get, c_string,
}
use pheromone.Scheduler.Responses.{receive}
use pheromone.Scheduler.Queues.{delay_forwarding, periodic}
use pheromone.Scheduler.Step.{Input, from_executor, from_coordinator, pass, Runs, start, after}
use pheromone.Scheduler.Credit.{
  Spends-quiet, Spends, Spends-still, calls_to, calls_to-append, credit, credit-put,
}
use pheromone.Scheduler.Credit.Moves.{IsFair, IsFair-then, IsFair-each, send_to-IsFair}
use pheromone.Scheduler.Credit.Objects.{send_known-IsFair}
use pheromone.Scheduler.Credit.Responses.{receive-IsFair}
use pheromone.Scheduler.Credit.Queues.{delay_forwarding-IsFair, periodic-IsFair}

-- 1 if the message is the available flag of the executor
abbrev pub released : ℕ → Option Bytes → ℕ
released e (some (address ∷ type ∷ rest)) =
    if nat_beq type 7 && nat_beq ((address + 255) % 256) e then 1 else 0
released e _ = 0

-- The available flags of the executor
abbrev pub all_released : ℕ → List Input → ℕ
all_released e [] = 0
all_released e (input ∷ inputs) = released e input.message + all_released e inputs

-- As Spends, but for up to `n` times that the executor becomes free.
abbrev Gains : ℕ → ℕ → Scheduler → Scheduler → List Effect → Type 0
Gains e n s t effects =
    Distinct s.executor_status_map
    → Distinct t.executor_status_map
      × (calls_to e effects + credit e t.executor_status_map ≤ credit e s.executor_status_map + n)

get_other :
    (n : ℕ) (m : Map ℕ ExecutorStatus) (j : ℕ)
    → j < n
    → get m j ≡ none
    → get ((n, await) ∷ m) j ≡ none
unfolding get
get_other n m j p h = ground (arith, nat_beq_iff n j)

Distinct-all_await :
    (n : ℕ) (m : Map ℕ ExecutorStatus)
    → ((j : ℕ) → j < n → get m j ≡ none)
    → Distinct m
    → Distinct (all_await n m)
Distinct-all_await zero m new d = d
Distinct-all_await (suc n) m new d =
    Distinct-all_await n ((n, await) ∷ m) (λ j p. get_other n m j p (new j (omega arith)))
      (new n (omega arith), d)

credit-all_await :
    (e n : ℕ) (m : Map ℕ ExecutorStatus) → credit e m ≡ 0 → credit e (all_await n m) ≡ 0
unfolding get
credit-all_await e zero m h = h
credit-all_await e (suc n) m h = credit-all_await e n ((n, await) ∷ m) (ground (arith, h))

module _ (w : Wires) (e : ℕ) (st : Settings) where
  on_local_get-IsFair :
      (now id req_id : ℕ) (key : Bytes) (size : Option ℕ) (s : Scheduler)
      → IsFair e s (on_local_get st now id req_id key size)
  unfolding on_local_get
  on_local_get-IsFair now id req_id key (some size) s = send_to-IsFair e st now id _ s refl
  on_local_get-IsFair now id req_id key none s =
      IsFair-then e _ _ s (λ d. (d, omega arith)) (λ t d. (d, omega arith))

  on_get-IsFair :
      (now id source req_id : ℕ) (key : Bytes) (s : Scheduler)
      → IsFair e s (on_get st now id source req_id key)
  unfolding on_get on_kvs_get
  on_get-IsFair now id source req_id key s =
      Keeps-if (Spends e) (nat_beq source 1) _ _ s (on_local_get-IsFair now id req_id key _ s) (
        Keeps-given (Spends e) (get_elem? (split key delimiter_char) 1) _ s
          (λ kvs_key. IsFair-then e _ _ s (λ d. (d, omega arith)) (λ t d. (d, omega arith))))

  get_message-IsFair :
      (now id : ℕ) (rest : Bytes) (s : Scheduler) → IsFair e s (get_message st now id rest)
  unfolding get_message
  get_message-IsFair now id (source ∷ req_id ∷ len ∷ rest) s =
      Keeps-given (Spends e) (text_of len rest) _ s
        (λ key. on_get-IsFair now id source req_id key s)
  get_message-IsFair now id [] s = tt
  get_message-IsFair now id (a ∷ []) s = tt
  get_message-IsFair now id (a ∷ b ∷ []) s = tt

  object_message-IsFair :
      (now id type : ℕ) (rest : Bytes) (s : Scheduler)
      → IsFair e s (object_message st now id type rest)
  unfolding object_message send_object
  object_message-IsFair now id type (req_id ∷ packing ∷ rest) s =
      Keeps-given (Spends e) (c_string rest) _ s
        (λ params. send_known-IsFair e st now id type req_id packing _ s)
  object_message-IsFair now id type [] s = tt
  object_message-IsFair now id type (a ∷ []) s = tt

  Gains-of-Spends :
      (n : ℕ) (m : Run Scheduler Effect) (s : Scheduler)
      → IsFair e s m
      → Holds (λ r. Gains e n s r.0 r.1) (m s)
  Gains-of-Spends n m s h =
      Holds-both (λ r. Unit) (λ r. Spends e s r.0 r.1) (λ r. Gains e n s r.0 r.1) (m s)
        (Holds-trivial _) h (λ r u p d. let (d', spent) = p d in (d', omega (arith, spent)))

  busy_flag-Gains : (n id : ℕ) (s : Scheduler) → Gains e n s (busy_flag id s) []
  unfolding busy_flag
  busy_flag-Gains n id s d = (
    Distinct-put s.executor_status_map id busy d,
    ground (arith, credit-put e id busy s.executor_status_map),
  )

  available_flag-Gains :
      (id : ℕ) (s : Scheduler) → Gains e (if nat_beq id e then 1 else 0) s (available_flag id s) []
  unfolding available_flag
  available_flag-Gains id s d =
      let status = freed (get_or (get s.executor_status_map id) empty) in
      (
        Distinct-put s.executor_status_map id status d,
        ground (arith, credit-put e id status s.executor_status_map),
      )

  executor_message-Gains :
      (now : ℕ) (msg : Bytes) (s : Scheduler)
      → Holds (λ r. Gains e (released e (some msg)) s r.0 r.1) (executor_message st now msg s)
  unfolding executor_message busy_flag available_flag
  executor_message-Gains now [] s = tt
  executor_message-Gains now (a ∷ []) s = tt
  executor_message-Gains now (address ∷ type ∷ rest) s =
      let id = (address + 255) % 256 in
      let n = released e (some (address ∷ type ∷ rest)) in
      Keeps-if (Gains e n) (nat_beq type 1) _ _ s
        (Gains-of-Spends n (get_message st now id rest) s (get_message-IsFair now id rest s))
        (Keeps-if (Gains e n) (leb 2 type && leb type 4) _ _ s
          (Gains-of-Spends n (object_message st now id type rest) s
            (object_message-IsFair now id type rest s))
          (Keeps-if (Gains e n) (nat_beq type 6) (modify (busy_flag id)) _ s
            (busy_flag-Gains n id s)
            (elim (Bool-cases (nat_beq type 7)) [
              | inl h ↦ rw h (available_flag-Gains id s)
              | inr h ↦ rw h (λ d. (d, omega arith))
            ])))

  from_executor-Gains :
      (now : ℕ) (msg : Option Bytes) (s : Scheduler)
      → Holds (λ r. Gains e (released e msg) s r.0 r.1) (from_executor w st now msg s)
  from_executor-Gains now none s = λ d. (d, omega arith)
  from_executor-Gains now (some msg) s = executor_message-Gains now msg s

  Gains-then :
      (n : ℕ) (m m' : Run Scheduler Effect) (s : Scheduler)
      → Holds (λ r. Gains e n s r.0 r.1) (m s)
      → ((t : Scheduler) → IsFair e t m')
      → Holds (λ r. Gains e n s r.0 r.1) ((m ▷ m') s)
  unfolding ◌▷◌
  Gains-then n m m' s h k =
      Holds-bind (λ r. Gains e n s r.0 r.1) (λ r. Gains e n s r.0 r.1) (m s) _ h
        λ r p.
          Holds-bind (λ q. Spends e r.0 q.0 q.1) (λ r. Gains e n s r.0 r.1) (m' r.0) _ (k r.0)
            λ q p' d.
              let (d', gained) = p d in
              let (d'', spent) = p' d' in
              (d'', omega (arith, gained, spent, calls_to-append e r.1 q.1))

  from_coordinator-IsFair :
      (now : ℕ) (msg : Option UpdateCoordMsg) (s : Scheduler)
      → IsFair e s (from_coordinator w st now msg)
  unfolding from_coordinator
  from_coordinator-IsFair now none s = Spends-still e s
  from_coordinator-IsFair now (some msg) s =
      Holds-bind (λ r. r.1.executor_status_map ≡ s.executor_status_map) (λ r. Spends e s r.0 r.1)
        (update_coord_msg w now msg (_, s)) _ (update_coord_msg-executors w now msg _ s)
        (λ r same. Spends-quiet e s r.1 [] same refl)

  pass-Gains :
      (input : Input) (s : Scheduler)
      → Holds (λ r. Gains e (released e input.message) s r.0 r.1) (pass w st input s)
  unfolding pass
  pass-Gains input s =
      Gains-then (released e input.message) (from_executor w st input.now input.message) _ s
        (from_executor-Gains input.now input.message s)
        (λ t.
          IsFair-then e (from_coordinator w st input.now input.update) _ t
            (from_coordinator-IsFair input.now input.update t)
            (λ u.
              IsFair-then e (each (receive st input.now) input.received) _ u
                (IsFair-each e (receive st input.now) input.received u
                  (λ msg v. receive-IsFair e st input.now msg v))
                (λ v.
                  IsFair-then e (delay_forwarding st input.now) (periodic st input.now) v
                    (delay_forwarding-IsFair e st input.now v) (periodic-IsFair e st input.now))))

all_released-snoc :
    (e : ℕ) (inputs : List Input) (input : Input)
    → all_released e (inputs ++ input ∷ []) ≡ all_released e inputs + released e input.message
all_released-snoc e [] input = omega arith
all_released-snoc e (x ∷ inputs) input = omega (arith, all_released-snoc e inputs input)

Runs-Gains :
    (w : Wires) (e : ℕ) (st : Settings) (time seed : ℕ) (inputs : List Input) (s : Scheduler)
    (effects : List Effect)
    → Runs w st time seed inputs s effects
    → Distinct s.executor_status_map
      × (calls_to e effects + credit e s.executor_status_map ≤ all_released e inputs)
unfolding get
Runs-Gains w e st time seed _ _ _ start = (
  Distinct-all_await st.executor_num [] (λ j p. refl) tt,
  omega (arith, credit-all_await e st.executor_num [] refl),
)
Runs-Gains w e st time seed _ _ _ (after inputs input s s' effects more before done) =
    let (d, calls) = Runs-Gains w e st time seed inputs s effects before in
    let gains =
      subst (Holds (λ r. Gains e (released e input.message) s r.0 r.1)) done
        (pass-Gains w e st input s) in
    let (d', gained) = gains d in
    (
      d',
      omega
          (arith, calls, gained, calls_to-append e effects more, all_released-snoc e inputs input),
    )

-- In every run of the scheduler that does not crash, an executor has been sent no more calls than it
-- has sent available flags, and one less if the scheduler counts it as free. Executors send such a
-- flag behind every call, and also now and then.
pub calls_to-le_released :
    (w : Wires) (e : ℕ) (st : Settings) (time seed : ℕ) (inputs : List Input) (s : Scheduler)
    (effects : List Effect)
    → Runs w st time seed inputs s effects
    → calls_to e effects + credit e s.executor_status_map ≤ all_released e inputs
calls_to-le_released w e st time seed inputs s effects run =
    (Runs-Gains w e st time seed inputs s effects run).1
