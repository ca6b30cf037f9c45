-- ===== src/Coordinator/Calls.antt =====
-- src/coordinator/func_call_handler.cpp: which node gets a call. The loops over the requests are in
-- the child modules; the C library's rand_r is a parameter.
pub mod Share
pub mod Batch
pub mod Single
pub mod Delivery
pub mod Split
pub mod Scan
use pheromone.Base.{
  ℕ, zero, suc, ◌+◌, ◌%◌, ◌≤◌, Bytes, Address, Bool, true, false, List, [], ◌∷◌, ◌++◌, map, Option,
  none, some, bytes_eq, leb, ltb, length, get_elem?, if◌then◌else◌,
}
use pheromone.Base.Maps.{Map, put, is_empty, get_or}
use pheromone.Common.Addresses.{get_func_exec_address}
use pheromone.Common.Random.{gen_random}
use pheromone.Coordinator.Types.{
  Coordinator, NodeStatus, FunctionCall, FunctionRequest, Send, function_call,
  function_call_response,
}
use Share.{node_loads}
use Split.{split_calls}
use Scan.{Scanned, scan}

-- scheduled_node_msg
abbrev pub Scheduled : Type 0
Scheduled = Map Address FunctionCall

abbrev pub put_parts : FunctionCall → List (Address × List FunctionRequest) → Scheduled → Scheduled
put_parts routed [] m = m
put_parts routed ((node, requests) ∷ parts) m =
    put_parts routed parts (put m node (record routed { requests = requests }))

-- routed_call: a new message, with three fields set.
abbrev pub routed_call : FunctionCall → FunctionCall
routed_call call = record {
  app_name = call.app_name;
  requests = [];
  source = [];
  request_id = [];
  resp_address = call.resp_address;
  session_id = [];
  sync_data_status = true;
}

-- More than one request; `none` is a loop that does not end or a read out of range.
unfoldable pub schedule_batch : FunctionCall → Map Address NodeStatus → Option Scheduled
schedule_batch call nodes =
    let s = scan call.source nodes in
    let req_num = length call.requests in
    if leb req_num s.max_executors
    then some ((s.node_with_max_executors, call) ∷ [])
    else if leb req_num s.total_executors
    then elim (node_loads req_num s.avail_nodes) [
      | none ↦ none
      | some loads ↦ elim (split_calls call.requests loads) [
        | none ↦ none
        | some parts ↦ some (put_parts (routed_call call) parts [])
      ]
    ]
    else some []

module _ (rand_r : ℕ → ℕ × ℕ) (io_thread_num : ℕ) where
  -- One request or none.
  unfoldable pub schedule_single : ℕ → FunctionCall → Map Address NodeStatus → Scheduled × ℕ
  schedule_single seed call nodes =
      let s = scan call.source nodes in
      let (r, seed') = rand_r seed in
      if ltb 0 s.max_executors
      then ((s.node_with_max_executors, call) ∷ [], seed)
      else elim (get_elem? nodes (r % length nodes)) [
        | none ↦ ([], seed)
        | some (node, status) ↦ ((node, call) ∷ [], seed')
      ]

  -- Each message goes to a random one of the node's threads.
  unfoldable pub send_calls : ℕ → Scheduled → List Send × ℕ
  send_calls seed [] = ([], seed)
  send_calls seed ((node, call) ∷ m) =
      let (r, seed') = rand_r seed in
      let (sends, seed'') = send_calls seed' m in
      (
        record {
          address = get_func_exec_address node (r % io_thread_num);
          message = function_call call;
        }
            ∷ sends,
        seed'',
      )

  -- A call without a session gets a random one of 16 bytes.
  unfoldable pub with_session : ℕ → FunctionCall → FunctionCall × ℕ
  unfolding gen_random
  with_session seed call =
      let (session, seed') = gen_random rand_r seed 16 in
      if is_empty call.session_id
      then (record call { session_id = session }, seed')
      else (call, seed)

  unfoldable pub schedule : ℕ → FunctionCall → Map Address NodeStatus → Option (Scheduled × ℕ)
  unfolding schedule_batch schedule_single
  schedule seed call nodes =
      if ltb 1 (length call.requests)
      then elim (schedule_batch call nodes) [ none ↦ none | some m ↦ some (m, seed) ]
      else some (schedule_single seed call nodes)

  -- What is sent to the caller when no node takes the call.
  unfoldable pub refuse : FunctionCall → List Send
  refuse call =
      if is_empty call.resp_address
      then []
      else record {
        address = call.resp_address;
        message = function_call_response (record {
          app_name = call.app_name;
          request_id = call.request_id;
          output = [];
          error_no = 1;
        });
      }
        ∷ []

  unfoldable pub send_scheduled : FunctionCall → Scheduled × ℕ → List Send × ℕ
  unfolding refuse send_calls
  send_scheduled call (m, seed) = if is_empty m then (refuse call, seed) else send_calls seed m

  unfoldable pub func_call_handler : Coordinator → FunctionCall → Option (Coordinator × List Send)
  unfolding with_session schedule send_scheduled
  func_call_handler c call_msg =
      let (call, seed) = with_session c.seed call_msg in
      elim (schedule seed call c.node_status_map) [
        | none ↦ none
        | some m ↦
            let (sends, seed') = send_scheduled call m in some (record c { seed = seed' }, sends)
      ]
