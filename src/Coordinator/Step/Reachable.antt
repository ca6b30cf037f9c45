-- ===== src/Coordinator/Step/Reachable.antt =====
-- The states of a coordinator's thread.
use mathlib.Core.Path.{subst}
use pheromone.Base.{
  [], Bucket, true, ◌⊎◌, inl, inr, Bool-cases, arith, ℕ, ◌≡◌, refl, List, Option, none, some, Holds,
  Holds-bind, Holds-both, bytes_eq,
}
use pheromone.Base.Maps.{Distinct, has, get, get_or, get, Distinct-put}
use pheromone.Coordinator.Types.{Coordinator, init, TriggerOperationRequest, FunctionCall, Send}
use pheromone.Coordinator.Buckets.{bucket_op_handler}
use pheromone.Coordinator.Triggers.{operate, trigger_op_handler, Outcome, respond}
use pheromone.Coordinator.Apps.{register_all, app_register_handler}
use pheromone.Coordinator.Calls.{func_call_handler}
use pheromone.Coordinator.Notify.{notify_handler}
use pheromone.Coordinator.Notify.Conservation.{handle_objects-Conserves, Conserves}
use pheromone.Coordinator.Step.{
  Request, notify, query, bucket_operation, trigger_operation, update, app_regist, func_call,
  update_handler, Settings, step,
}
use pheromone.Coordinator.Step.Registered.{
  IsRegistered, IsValid, ValidState, bucket_op-IsValid, operate-IsValid, register_all-IsValid,
}
use pheromone.Coordinator.Step.Reactions.{handle_objects-IsRegistered}

-- The states that the thread reaches, with the messages in any order and at any times, while no
-- handler crashes.
pub data Reachable (s : Settings) (seed : ℕ) : Coordinator → Type 0 where
  start : Reachable s seed (init seed)
  after :
      (now : ℕ) (c c' : Coordinator) (request : Request) (sends : List Send)
      → Reachable s seed c
      → step s now c request ≡ some (c', sends)
      → Reachable s seed c'

init-IsValid : (seed : ℕ) → IsValid (init seed)
unfolding get
init-IsValid seed = (λ bucket h. refl, tt)

module _ (s : Settings) where
  respond-IsValid :
      (r : TriggerOperationRequest) (o : Option (Outcome s.wires s.private_ip s.thread_id))
      → Holds (λ x. IsValid x.0) o
      → Holds (λ x. IsValid x.0) (respond s.wires s.private_ip s.thread_id r o)
  respond-IsValid r none h = tt
  respond-IsValid r (some x) h = h

  func_call_handler-IsValid :
      (c : Coordinator) (r : FunctionCall)
      → IsValid c
      → Holds (λ x. IsValid x.0) (func_call_handler s.rand_r s.io_thread_num c r)
  unfolding func_call_handler
  func_call_handler-IsValid c r v = ground arith

  step-IsValid :
      (now : ℕ) (c : Coordinator) (request : Request)
      → IsValid c
      → Holds (λ x. IsValid x.0) (step s now c request)
  unfolding step update_handler notify_handler bucket_op_handler trigger_op_handler
      app_register_handler
  step-IsValid now c (notify r) v =
      Holds-both (λ x. IsRegistered x.0) (Conserves s.rand_r s.io_thread_num c) (λ x. IsValid x.0)
        (notify_handler s.rand_r s.io_thread_num now c r)
        (handle_objects-IsRegistered s.rand_r s.io_thread_num now r r.addresses c v.0)
        (handle_objects-Conserves s.rand_r s.io_thread_num now r r.addresses c v.1)
        (λ x registered conserved. (registered, conserved.0))
  step-IsValid now c (query r) v = v
  step-IsValid now c (bucket_operation r) v =
      bucket_op-IsValid c r.operation_type r.app_name r.bucket_name v
  step-IsValid now c (trigger_operation r) v =
      respond-IsValid r (operate s.wires s.private_ip s.thread_id now c r.operation_type r)
        (operate-IsValid s.wires s.private_ip s.thread_id now c r.operation_type r v)
  step-IsValid now c (update r) v = (v.0, Distinct-put c.node_status_map r.ip _ v.1)
  step-IsValid now c (app_regist r) v =
      Holds-bind ValidState (λ x. IsValid x.0)
        (register_all s.wires now r.app_name _ r.dependencies) _
        (register_all-IsValid s.wires now r.app_name _ r.dependencies v) (λ x h. h)
  step-IsValid now c (func_call r) v = func_call_handler-IsValid c r v

Reachable-IsValid : (s : Settings) (seed : ℕ) (c : Coordinator) → Reachable s seed c → IsValid c
Reachable-IsValid s seed _ start = init-IsValid seed
Reachable-IsValid s seed _ (after now c c' request sends before done) =
    subst (Holds (λ x. IsValid x.0)) done
      (step-IsValid s now c request (Reachable-IsValid s seed c before))

-- In every state that a thread reaches, a bucket is registered or has no triggers, and every node
-- has one status.
pub Reachable-registered :
    (s : Settings) (seed : ℕ) (c : Coordinator) (bucket : Bucket)
    → Reachable s seed c
    → ((has c.bucket_app_map bucket ≡ true) ⊎ (get_or (get c.bucket_triggers_map bucket) [] ≡ []))
      × Distinct c.node_status_map
Reachable-registered s seed c bucket reached =
    let v = Reachable-IsValid s seed c reached in
    (
      elim (Bool-cases (has c.bucket_app_map bucket)) [
        | inl known ↦ inl known
        | inr new ↦ inr (v.0 bucket new)
      ],
      v.1,
    )
