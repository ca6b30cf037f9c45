-- ===== src/Helper/Tests.antt =====
-- The communication helper on concrete messages.
use pheromone.Base.{
  Address, ◌+◌, ◌<◌, ◌≤◌, ◌≡◌, refl, Bytes, bytes, true, [], ◌∷◌, Option, some, arith, bytes_eq,
}
use pheromone.Base.Maps.{get, put, get_or}
use pheromone.Common.Addresses.{endpoint}
use pheromone.Common.Decimal.{to_string}
use pheromone.Threads.{data_access_client_port}
use pheromone.Trigger.Types.{immediate}
use pheromone.Trigger.Primitives.{gen_trigger_pointer}
use pheromone.Trigger.Primitives.Samples.{sample_wires}
use pheromone.Coordinator.Types.{
  FunctionCall, init, success, Coordinator, KvsError, UpdateCoordMsg, TriggerOperationRequest,
  add_trigger,
}
use pheromone.Coordinator.Triggers.{add, empty_update}
use pheromone.Scheduler.Types.{Scheduler, call, data_resp, init as start}
use pheromone.Helper.Types.{CommHelper, get_io_thread_id}
use pheromone.Helper.Mirror.{HasPushed, update_coord_msg-add}
use pheromone.Helper.Updates.{update_coord_msg}
use pheromone.Coordinator.Triggers.Changes.{triggers_of}
use pheromone.Trigger.Dispatch.{Trigger, set_rerun_metadata}
use pheromone.Helper.Calls.{
  function_call, handle_function_call, Outgoing, client_response, forward_func_call,
}
use pheromone.Helper.Forwarded.{handle_function_call-forward_func_call}
use pheromone.Helper.Objects.{
  framed, send_data_req_base, handle_data_request, handle_data_response,
  handle_data_request-send_data_req_base,
}
use pheromone.Helper.Threads.{get_io_thread_id-lt}

abbrev helper : CommHelper
helper = record {
  key_address_cache = (bytes "b|k", bytes "tcp://10.0.0.8:5100") ∷ [];
  app_coord_map = (bytes "app", record { ip = bytes "10.0.0.2"; tid = 0 }) ∷ [];
  bucket_coord_map = [];
  routing_threads = [];
  rid = 0;
  io_thread_count = 4;
  io_thread_id = 3;
  ut = record { ip = bytes "10.0.0.7"; tid = 0 };
  ip = bytes "10.0.0.7";
}

get_io_thread_id-lt_example :
    ((get_io_thread_id true helper).0 < 4)
    × ((get_io_thread_id true helper).1.io_thread_id ≡ (get_io_thread_id true helper).0)
    × (true ≡ true → 1 ≤ (get_io_thread_id true helper).0)
get_io_thread_id-lt_example =
    get_io_thread_id-lt true helper (omega arith) (omega arith) (omega arith)

abbrev stored : Bytes → Bytes
stored key = bytes "value"

handle_data_request-send_data_req_base_example :
    (handle_data_request stored (framed (bytes "b|k") (endpoint (bytes "10.0.0.7") 4453))
      ≡ some (some (endpoint (bytes "10.0.0.7") 4453, framed (bytes "b|k") (bytes "value"))))
    × (handle_data_response (framed (bytes "b|k") (bytes "value"))
        ≡ some (data_resp (bytes "b|k") 5, bytes "value"))
unfolding send_data_req_base get to_string handle_data_request handle_data_response
handle_data_request-send_data_req_base_example =
    handle_data_request-send_data_req_base stored 3 (bytes "b|k") helper
      (bytes "tcp://10.0.0.8:5100")
      (framed (bytes "b|k") (endpoint (bytes "10.0.0.7") (3 + data_access_client_port)))
      (omega arith) refl (omega arith) refl

abbrev forwarded : Option (Outgoing × CommHelper)
unfolding forward_func_call
forwarded =
    forward_func_call [] (bytes "app") (bytes "f" ∷ [])
      ((bytes "b" ∷ bytes "k" ∷ bytes "9" ∷ []) ∷ []) 1 (bytes "s") helper

abbrev sent : Outgoing × CommHelper
unfolding forwarded
sent = get_or forwarded (client_response [] [] [], helper)

handle_function_call-forward_func_call_example :
    (to : Address) × (c : FunctionCall) × (sent.0 ≡ function_call to c)
    × ((handle_function_call c helper).0
        ≡ call (bytes "app") [] (bytes "s") ((bytes "f", bytes "b|k" ∷ [], 1) ∷ []))
unfolding forward_func_call get
handle_function_call-forward_func_call_example =
    handle_function_call-forward_func_call [] (bytes "app") (bytes "f" ∷ [])
      ((bytes "b" ∷ bytes "k" ∷ bytes "9" ∷ []) ∷ []) 1 (bytes "s") helper sent.1 helper sent.0 refl

abbrev request : TriggerOperationRequest
request = record {
  operation_type = add_trigger;
  app_name = bytes "app";
  bucket_name = bytes "b";
  trigger_name = bytes "t";
  trigger_option = 1;
  primitive_type = immediate;
  primitive = sample_wires.immediate_wire.serialize (record { function = bytes "g" });
  request_id = bytes "1";
  response_address = bytes "tcp://10.0.0.9:6000";
  hints = [];
}

abbrev coordinator : Coordinator
coordinator = record (init 0) { bucket_app_map = (bytes "b", bytes "app") ∷ [] }

abbrev scheduler : Scheduler
scheduler = start 2 0 0

abbrev outcome : Coordinator × KvsError × UpdateCoordMsg
unfolding add
outcome =
    get_or (add sample_wires (bytes "10.0.0.2") 0 5 coordinator request)
      (coordinator, success, empty_update)

update_coord_msg-add_example :
    (t : Trigger) × (h' : CommHelper) × (s' : Scheduler) × (triggers_of outcome.0 (bytes "b")
      ≡ t ∷ [])
    × (update_coord_msg sample_wires 9 outcome.2 (helper, scheduler) ≡ some (h', s'))
    × HasPushed (bytes "b") (set_rerun_metadata t []) scheduler s'
unfolding add get gen_trigger_pointer put
update_coord_msg-add_example =
    update_coord_msg-add sample_wires 5 9 (bytes "10.0.0.2") 0 coordinator outcome.0 helper
      scheduler request outcome.1 outcome.2 refl refl refl refl
