-- ===== src/Helper/Calls.antt =====
-- comm_helper.hpp: the calls that are forwarded to coordinators and received from them, and the
-- messages to coordinators and clients.
use pheromone.Base.{
  ℕ, Bytes, Address, Session, List, [], ◌∷◌, ◌++◌, true, false, Option, none, some, bytes_eq,
  if◌then◌else◌, ◌>>=◌, ltb,
}
use pheromone.Base.Maps.{Map, get, put, has, is_empty}
use pheromone.Common.{BucketKey, delimiter, shm_key_name}
use pheromone.Threads.{Thread, service_connect, kvs, forward_func, update_handler}
use pheromone.Coordinator.Types.{
  Argument, FunctionRequest, FunctionCall, FunctionCallResponse, KeyNotifyRequest,
  UpdateStatusMessage, get_addr_from_bucket_key,
}
use pheromone.Scheduler.Types.{RecvMsg, call}
use pheromone.Scheduler.Forward.{is_positive}
use pheromone.Helper.Types.{CommHelper, get_data_server_addr, get_notifying_thread, get_request_id}

-- What a handler sends: the address of the socket, and the message.
pub data Outgoing : Type 0 where
  function_call : Address → FunctionCall → Outgoing
  function_call_response : Address → FunctionCallResponse → Outgoing
  key_notify : Address → KeyNotifyRequest → Outgoing
  status : Address → UpdateStatusMessage → Outgoing

-- The arguments that are keys, by bucket and key; each gets a data server's address in turn. An index
-- out of range is `none`.
unfoldable pub key_arguments : ℕ → List Bytes → CommHelper → Option (List Argument × CommHelper)
unfolding get_data_server_addr
key_arguments arg_flag [] h = some ([], h)
key_arguments arg_flag (bucket ∷ []) h = none
key_arguments arg_flag (bucket ∷ key ∷ []) h =
    let (address, h') = get_data_server_addr false h in
    some (
      record { body = bucket ++ (delimiter ++ key); arg_flag = arg_flag; data_address = address }
          ∷ [],
      h',
    )
key_arguments arg_flag (bucket ∷ key ∷ size ∷ rest) h =
    let (address, h') = get_data_server_addr false h in
    key_arguments arg_flag rest h' >>= λ r. some (
      record { body = bucket ++ (delimiter ++ key); arg_flag = arg_flag; data_address = address }
          ∷ r.0,
      r.1,
    )

unfoldable pub value_arguments : ℕ → List Bytes → List Argument
value_arguments arg_flag [] = []
value_arguments arg_flag (arg ∷ args) =
    record { body = arg; arg_flag = arg_flag; data_address = [] } ∷ value_arguments arg_flag args

abbrev pub arguments_of : ℕ → List Bytes → CommHelper → Option (List Argument × CommHelper)
arguments_of arg_flag args h =
    if is_positive arg_flag
    then key_arguments arg_flag args h
    else some (value_arguments arg_flag args, h)

-- One request for each function; a function without arguments is an index out of range.
unfoldable pub requests_of :
    ℕ → List Bytes → List (List Bytes) → CommHelper → Option (List FunctionRequest × CommHelper)
unfolding key_arguments value_arguments
requests_of arg_flag [] args h = some ([], h)
requests_of arg_flag (name ∷ names) [] h = none
requests_of arg_flag (name ∷ names) (args ∷ rest) h = arguments_of arg_flag args h >>= λ r.
    requests_of arg_flag names rest r.1 >>= λ q.
    some (record { name = name; arguments = r.0 } ∷ q.0, q.1)

-- For an app that no coordinator has told of, the code reads a thread that was never set: `none`.
unfoldable pub forward_func_call :
    Address
    → Bytes
    → List Bytes
    → List (List Bytes)
    → ℕ
    → Session
    → CommHelper
    → Option (Outgoing × CommHelper)
unfolding requests_of
forward_func_call client app_name names args arg_flag session h = do
  (requests, h') ← requests_of arg_flag names args h
  coord ← get h.app_coord_map app_name
  some (
    function_call (service_connect (kvs forward_func) coord) (record {
      app_name = app_name;
      requests = requests;
      source = h.ip;
      request_id = [];
      resp_address = client;
      session_id = session;
      sync_data_status = true;
    }),
    h',
  )

-- map::emplace leaves a key alone that is there.
abbrev pub emplace : Map Bytes Address → Bytes → Address → Map Bytes Address
emplace m key address = if has m key then m else put m key address

-- The bodies of the arguments, the last flag that is not 0, and the addresses that come with such
-- flags. A flag in the message is unsigned, so that a negative one is above 0.
unfoldable pub receive_arguments :
    List Argument → ℕ → Map Bytes Address → List Bytes × ℕ × Map Bytes Address
receive_arguments [] flag cache = ([], flag, cache)
receive_arguments (arg ∷ args) flag cache =
    let positive = ltb 0 arg.arg_flag in
    let flag' = if positive then arg.arg_flag else flag in
    let cache' = if positive then emplace cache arg.body arg.data_address else cache in
    let (bodies, last, cache'') = receive_arguments args flag' cache' in
    (arg.body ∷ bodies, last, cache'')

unfoldable pub receive_requests :
    List FunctionRequest → Map Bytes Address → List (Bytes × List Bytes × ℕ) × Map Bytes Address
unfolding receive_arguments
receive_requests [] cache = ([], cache)
receive_requests (req ∷ reqs) cache =
    let (bodies, flag, cache') = receive_arguments req.arguments 0 cache in
    let (more, cache'') = receive_requests reqs cache' in ((req.name, bodies, flag) ∷ more, cache'')

unfoldable pub handle_function_call : FunctionCall → CommHelper → RecvMsg × CommHelper
unfolding receive_requests
handle_function_call c h =
    let (calls, cache) = receive_requests c.requests h.key_address_cache in
    (call c.app_name c.resp_address c.session_id calls, record h { key_address_cache = cache })

-- Nothing is sent for a bucket without a known coordinator.
unfoldable pub notify_put :
    BucketKey → List Bytes → Address → Bytes → CommHelper → List Outgoing × CommHelper
unfolding get_notifying_thread get_request_id get_data_server_addr shm_key_name
    get_addr_from_bucket_key
notify_put k active_triggers client payload h =
    let to = get_notifying_thread k.bucket h in
    let (req_id, h') = get_request_id h in
    let (address, h'') = get_data_server_addr true h' in
    if is_empty to then ([], h) else (
      key_notify to (record {
        response_address = client;
        addresses =
            record (get_addr_from_bucket_key k) { ips = address ∷ []; payload = payload } ∷ [];
        active_trigger_names = active_triggers;
        request_id = req_id;
      })
          ∷ [],
      h'',
    )

unfoldable pub client_response : Address → Bytes → Bytes → Outgoing
client_response client app_name output =
    function_call_response client
      (record { app_name = app_name; request_id = []; output = output; error_no = 0 })

-- Every coordinator is told.
unfoldable pub update_status : ℕ → List Bytes → List Thread → CommHelper → List Outgoing
update_status avail functions [] h = []
update_status avail functions (t ∷ ts) h =
    status (service_connect (kvs update_handler) t)
      (record { ip = h.ip; avail_executors = avail; functions = functions })
    ∷ update_status avail functions ts h
