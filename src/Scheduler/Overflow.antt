-- ===== src/Scheduler/Overflow.antt =====
-- scheduler_server.cpp: what happens to the targets of an object in shared memory that find no free
-- executor.
use pheromone.Base.{
  true, ℕ, ◌<◌, ◌≡◌, refl, Bytes, Session, false, List, [], ◌∷◌, none, arith, lt→ltb, length, drop,
  length-drop, Option-cases, inl, inr, bytes_eq,
}
use pheromone.Base.Runs.{Run, ◌▷◌}
use pheromone.Scheduler.Types.{Scheduler, Settings, Effect}
use pheromone.Scheduler.Statuses.{get_avail_executor_num}
use pheromone.Scheduler.Forward.{forward_call_via_helper, total_data_size, data_size}
use pheromone.Scheduler.Objects.{ObjectInfo, obj_name, direct_invocation, invoke_all, copies}
use pheromone.Base.Maps.{is_empty}

module _ (st : Settings) (now : ℕ) where
  pairs-crash :
      (a b : Bytes) (remote : List Bytes)
      → 0 < length remote
      → total_data_size (copies st now (a ∷ b ∷ []) remote) ≡ none
  unfolding total_data_size data_size
  pairs-crash a b [] h = absurd (omega (arith, h))
  pairs-crash a b (func ∷ remote) h = refl

  forward-crash :
      (session : Session) (app_name a b : Bytes) (remote : List Bytes) (s : Scheduler)
      → 0 < length remote
      → forward_call_via_helper st session app_name remote (copies st now (a ∷ b ∷ []) remote) 1 s
        ≡ none
  unfolding forward_call_via_helper
  forward-crash session app_name a b remote s h = rw (pairs-crash a b remote h) refl

  then-crash :
      (m n : Run Scheduler Effect) (s : Scheduler)
      → ((t : Scheduler) → n t ≡ none)
      → (m ▷ n) s ≡ none
  unfolding ◌▷◌
  then-crash m n s h = elim (Option-cases (m s)) [
    | inl e ↦ rw e refl
    | inr (r, e) ↦ rw (e, h r.0) refl
  ]

  invoke_all-crashes :
      (session : Session) (app_name name size : Bytes) (targets : List Bytes) (s : Scheduler)
      → st.reject_extra_req ≡ false
      → get_avail_executor_num s.executor_status_map < length targets
      → invoke_all st now session app_name (name ∷ size ∷ []) 1 targets s ≡ none
  unfolding invoke_all forward_call_via_helper
  invoke_all-crashes session app_name name size targets s accept more =
      let avail = get_avail_executor_num s.executor_status_map in
      let remote = drop avail targets in
      rw (lt→ltb avail (length targets) more) (
        then-crash _ _ s (λ t. rw accept (
          forward-crash session app_name name size remote t
            (omega (arith, more, length-drop avail targets)))))

  -- Where the scheduler forwards what it cannot place, and a function that names no target has put its
  -- result into shared memory and has more targets than there are free executors, the scheduler
  -- crashes: the arguments that it forwards are the object's name and its size, and it reads three.
  pub direct_invocation-crashes :
      (o : ObjectInfo) (app_name : Bytes) (targets : List Bytes) (s : Scheduler)
      → st.reject_extra_req ≡ false
      → is_empty o.tgt_function ≡ true
      → get_avail_executor_num s.executor_status_map < length targets
      → direct_invocation st now 2 o app_name targets s ≡ none
  unfolding direct_invocation
  direct_invocation-crashes o app_name targets s accept unnamed more =
      rw unnamed
        (invoke_all-crashes o.session_id app_name (obj_name o) o.content targets s accept more)
