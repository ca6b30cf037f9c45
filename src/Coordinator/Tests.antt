-- ===== src/Coordinator/Tests.antt =====
-- The coordinator's handlers on concrete messages.
use mathlib.Core.List.{Memᴰ}
use pheromone.Base.{
  ℕ, ◌+◌, ◌≤◌, ◌≡◌, refl, Bytes, bytes, Address, true, false, List, [], ◌∷◌, map, some, arith, All,
  ◌&&◌, ◌==◌, bytes_eq, if◌then◌else◌, ◌⊎◌,
}
use pheromone.Base.Int.{pos}
use pheromone.Base.Sets.{insert, contains}
use pheromone.Base.Maps
use pheromone.Base.Maps.{Map, get, put, has, get_or}
use pheromone.Common.{BucketKey}
use pheromone.Trigger.Types.{immediate}
use pheromone.Trigger.Immediate
use pheromone.Trigger.Dispatch.{Trigger, make, immediate_state, set_trigger_option, get_type}
use pheromone.Trigger.Primitives.Samples.{sample_wires}
use pheromone.Coordinator.Types.{
  KvsError, UpdateCoordMsg, Coordinator, init, NodeStatus, FunctionCall, FunctionRequest,
  KeyNotifyRequest, KeyQueryRequest, BucketKeyAddress, TriggerOperationRequest, add_trigger,
  UpdateStatusMessage, success, Send, get_bucket_key_from_addr, key_query_response,
}
use pheromone.Coordinator.Directory.{
  update_address, get_address, query_all, query_handler, AddressMap,
}
use pheromone.Coordinator.Directory.Lookups.{
  IsKnown, located_reply, get_address-update_address, query_all-IsKnown, query_handler-located,
}
use pheromone.Coordinator.Triggers.{add, has_trigger}
use pheromone.Coordinator.Triggers.Changes.{Undone, delete-add}
use pheromone.Coordinator.Calls.{schedule_batch, schedule_single, routed_call}
use pheromone.Coordinator.Calls.Scan.{is_source}
use pheromone.Coordinator.Calls.Scan.Found.{max_from, slots, counted_nodes}
use pheromone.Coordinator.Calls.Split.Parts.{Part, joined, sizes, busy}
use pheromone.Coordinator.Calls.Share.Loads.{Within}
use pheromone.Coordinator.Calls.Single.{schedule_single-best}
use pheromone.Coordinator.Calls.Delivery.{schedule_batch-delivery}
use pheromone.Coordinator.Notify.{notify_handler}
use pheromone.Coordinator.Notify.Capacity.{free_total}
use pheromone.Coordinator.Notify.Conservation.{calls_in, notify_handler-conserves}
use pheromone.Coordinator.Step.{Settings, step, update, update_handler}
use pheromone.Coordinator.Step.Reachable.{start, after, Reachable-registered}

abbrev counter : ℕ → ℕ × ℕ
counter seed = (seed, 1 + seed)

abbrev settings : Settings
settings = record {
  rand_r = counter;
  io_thread_num = 2;
  private_ip = bytes "10.0.0.1";
  thread_id = 0;
  wires = sample_wires;
}

abbrev status : ℕ → NodeStatus
status n = record { tp = 0; avail_executors = pos n; functions = [] }

abbrev two_nodes : Map Address NodeStatus
two_nodes = (bytes "10.0.0.7", status 1) ∷ (bytes "10.0.0.8", status 1) ∷ []

two_nodes-Distinct : Maps.Distinct two_nodes
unfolding get
two_nodes-Distinct = (refl, (refl, tt))

abbrev request : Bytes → FunctionRequest
request name = record { name = name; arguments = [] }

abbrev call : List FunctionRequest → FunctionCall
call requests = record {
  app_name = bytes "app";
  requests = requests;
  source = [];
  request_id = bytes "r";
  resp_address = [];
  session_id = bytes "s";
  sync_data_status = false;
}

abbrev batch : FunctionCall
batch = call (request (bytes "f") ∷ request (bytes "g") ∷ [])

schedule_batch-delivery_example :
    (parts : List Part) × (loads : List (Address × ℕ)) × (schedule_batch batch two_nodes
      ≡ some (map (λ p. (p.0, record (routed_call batch) { requests = p.1 })) parts))
    × (joined parts ≡ batch.requests)
    × (sizes parts ≡ busy loads)
    × Within loads (counted_nodes [] two_nodes)
schedule_batch-delivery_example =
    schedule_batch-delivery batch two_nodes two_nodes-Distinct (omega arith) (omega arith)

schedule_single-best_example :
    (node : Address) × (status : NodeStatus) × ((schedule_single counter 2 0
        (call (request (bytes "f") ∷ []))
        two_nodes).0
      ≡ (node, call (request (bytes "f") ∷ [])) ∷ [])
    × Memᴰ (node, status) two_nodes
    × (max_from [] two_nodes 0 ≤ slots status)
    × ((max_from [] two_nodes 0 ≡ 0) ⊎ (is_source [] node ≡ false))
schedule_single-best_example =
    schedule_single-best counter 2 0 (call (request (bytes "f") ∷ [])) two_nodes (omega arith)

abbrev object : BucketKey
object = record { bucket = bytes "b"; key = bytes "k"; session = bytes "s" }

abbrev location : Address
location = bytes "tcp://10.0.0.7:5050"

abbrev addresses : AddressMap
addresses = (bytes "b", (bytes "k", location ∷ []) ∷ []) ∷ []

get_address-update_address_example :
    get_address object (update_address object location addresses) ≡ (
      if bytes "b" == bytes "b" && bytes "k" == bytes "k"
      then record { error = success; addr = insert (get_address object addresses).addr location }
      else get_address object addresses)
get_address-update_address_example = get_address-update_address object object location addresses

abbrev object_message : BucketKeyAddress
object_message = record {
  bucket = bytes "b";
  key = bytes "k";
  session = bytes "s";
  ips = location ∷ [];
  payload = [];
}

abbrev key_query : KeyQueryRequest
key_query = record {
  response_address = bytes "tcp://10.0.0.7:4000";
  addresses = object_message ∷ [];
  request_id = bytes "q";
}

query_all-IsKnown_example : All (IsKnown addresses) (object_message ∷ [])
unfolding query_all get_address get
query_all-IsKnown_example = query_all-IsKnown addresses (object_message ∷ []) refl

query_handler-located_example :
    query_handler key_query addresses
    ≡ record {
      address = bytes "tcp://10.0.0.7:4000";
      message = key_query_response (record {
        addresses = map (located_reply addresses) (object_message ∷ []);
        error = success;
        response_id = bytes "q";
      });
    }
      ∷ []
unfolding get_address get get_bucket_key_from_addr
query_handler-located_example = query_handler-located key_query addresses (refl, tt)

abbrev registered : Coordinator
registered = record (init 0) {
  bucket_app_map = (bytes "b", bytes "app") ∷ [];
  node_status_map = two_nodes;
}

abbrev new_trigger : TriggerOperationRequest
new_trigger = record {
  operation_type = add_trigger;
  app_name = bytes "app";
  bucket_name = bytes "b";
  trigger_name = bytes "t";
  trigger_option = 0;
  primitive_type = immediate;
  primitive = sample_wires.immediate_wire.serialize (record { function = bytes "f" });
  request_id = bytes "r";
  response_address = bytes "tcp://10.0.0.9:4000";
  hints = [];
}

abbrev with_trigger : Coordinator
with_trigger = record registered {
  bucket_triggers_map =
      (bytes "b", make (bytes "f") (bytes "t") (immediate_state Immediate.init) ∷ []) ∷ [];
}

delete-add_example :
    (c' : Coordinator) × (error : KvsError) × (msg : UpdateCoordMsg) × (add sample_wires
        (bytes "10.0.0.1")
        0
        5
        registered
        new_trigger
      ≡ some (c', error, msg))
    × Undone sample_wires (bytes "10.0.0.1") 0 registered new_trigger (c', error)
unfolding get has_trigger
delete-add_example =
    delete-add sample_wires (bytes "10.0.0.1") 0 5 registered new_trigger refl refl refl

abbrev arrival : KeyNotifyRequest
arrival = record {
  response_address = [];
  addresses = object_message ∷ [];
  active_trigger_names = [];
  request_id = bytes "n";
}

-- What the handler makes of the arrival.
unfoldable notified : Coordinator × List Send
unfolding notify_handler
notified = get_or (notify_handler counter 2 9 with_trigger arrival) (with_trigger, [])

notify_handler-conserves_example :
    calls_in notified.1 + free_total notified.0.node_status_map ≡ free_total two_nodes
unfolding get notified pheromone.Coordinator.Notify.handle_object
    pheromone.Common.Addresses.ip_of_address pheromone.Coordinator.Notify.run_triggers
    pheromone.Coordinator.Notify.note_object get_bucket_key_from_addr contains
    pheromone.Coordinator.Notify.run_actions pheromone.Trigger.Dispatch.action_for_new_object
    Immediate.action_for_new_object pheromone.Coordinator.Notify.run_action
    pheromone.Coordinator.Notify.Arguments.arguments_for update_address put insert
notify_handler-conserves_example =
    notify_handler-conserves counter 2 9 with_trigger notified.0 arrival notified.1
      two_nodes-Distinct refl

abbrev first_report : UpdateStatusMessage
first_report = record { ip = bytes "10.0.0.7"; avail_executors = 4; functions = [] }

unfoldable reported : Coordinator
unfolding update_handler
reported = update_handler 3 (init 0) first_report

Reachable-registered_example :
    ((has reported.bucket_app_map (bytes "b") ≡ true)
      ⊎ (get_or (get reported.bucket_triggers_map (bytes "b")) [] ≡ []))
    × Maps.Distinct reported.node_status_map
unfolding reported step
Reachable-registered_example =
    Reachable-registered settings 0 reported (bytes "b")
      (after 3 (init 0) reported (update first_report) [] start refl)
