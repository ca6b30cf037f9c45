-- ===== src/Coordinator/Step.antt =====
-- src/coordinator/coordinator.cpp, the loop of run(): one message of one of its sockets. The reports
-- that it logs, and the socket of the function creations, which it only empties, have no effect.
pub mod Registered
pub mod Reactions
pub mod Reachable
use pheromone.Base.{ℕ, Bytes, Address, Bool, List, [], ◌∷◌, Option, none, some, bytes_eq}
use pheromone.Base.Sets.{insert_all}
use pheromone.Base.Int.{int_of_u32}
use pheromone.Base.Maps.{Map, get, put}
use pheromone.Trigger.Primitives.{Wires}
use pheromone.Coordinator.Types.{
  Coordinator, NodeStatus, update_status, KeyNotifyRequest, KeyQueryRequest, BucketOperationRequest,
  TriggerOperationRequest, UpdateStatusMessage, AppRegistration, FunctionCall, Send,
}
use pheromone.Coordinator.Directory.{query_handler}
use pheromone.Coordinator.Buckets.{bucket_op_handler}
use pheromone.Coordinator.Triggers.{trigger_op_handler}
use pheromone.Coordinator.Apps.{app_register_handler}
use pheromone.Coordinator.Calls.{func_call_handler}
use pheromone.Coordinator.Notify.{notify_handler}

-- What the sockets receive; calls and forwarded calls have the same handler.
pub data Request : Type 0 where
  notify : KeyNotifyRequest → Request
  query : KeyQueryRequest → Request
  bucket_operation : BucketOperationRequest → Request
  trigger_operation : TriggerOperationRequest → Request
  update : UpdateStatusMessage → Request
  app_regist : AppRegistration → Request
  func_call : FunctionCall → Request

-- The status update of a local scheduler.
unfoldable pub update_handler : ℕ → Coordinator → UpdateStatusMessage → Coordinator
unfolding update_status
update_handler now c msg =
    let functions = insert_all [] msg.functions in
    let avail_executors = int_of_u32 msg.avail_executors in
    let status : NodeStatus = elim (get c.node_status_map msg.ip) [
      | some status ↦ update_status now avail_executors functions status
      | none ↦ record { tp = now; avail_executors = avail_executors; functions = functions }
    ] in
    record c { node_status_map = put c.node_status_map msg.ip status }

-- The thread's configuration, and what it takes from libraries.
pub record Settings : Type 0 where
  pub rand_r : ℕ → ℕ × ℕ
  pub io_thread_num : ℕ
  pub private_ip : Address
  pub thread_id : ℕ
  pub wires : Wires

module _ (s : Settings) where
  -- `now` is the time of the system clock; `none` is a crash.
  unfoldable pub step : ℕ → Coordinator → Request → Option (Coordinator × List Send)
  unfolding update_handler
  step now c (notify r) = notify_handler s.rand_r s.io_thread_num now c r
  step now c (query r) = some (c, query_handler r c.bucket_key_address_map)
  step now c (bucket_operation r) = some (bucket_op_handler c r)
  step now c (trigger_operation r) = trigger_op_handler s.wires s.private_ip s.thread_id now c r
  step now c (update r) = some (update_handler now c r, [])
  step now c (app_regist r) = app_register_handler s.wires s.private_ip s.thread_id now c r
  step now c (func_call r) = func_call_handler s.rand_r s.io_thread_num c r
