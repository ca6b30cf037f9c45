-- ===== src/Coordinator/Notify.antt =====
-- src/coordinator/notify_handler.cpp: an object has arrived at a node. `none` is a crash: an address
-- shorter than its prefix, no address at all, or the first element of an empty set.
pub mod Routing
pub mod Arguments
pub mod Capacity
pub mod Conservation
use pheromone.Base.{
  ℕ, ◌+◌, ◌%◌, Bytes, Address, Bucket, Key, Session, Bool, true, false, List, [], ◌∷◌, ◌++◌, map,
  Option, none, some, ◌>>=◌, bytes_eq, length, get_elem?, ltb, not, ◌&&◌, if◌then◌else◌,
}
use pheromone.Base.Sets
use pheromone.Base.Int.{decrement}
use pheromone.Base.Maps.{Map, get, put, has, get_or, is_empty}
use pheromone.Common.{BucketKey, shm_key_name}
use pheromone.Common.Addresses.{endpoint, trigger_update_port, get_func_exec_address, ip_of_address}
use pheromone.Trigger.Types.{TriggerAction}
use pheromone.Trigger.Dispatch.{Trigger, action_for_new_object, get_type}
use pheromone.Coordinator.Types.{
  Coordinator, NodeStatus, empty_status, BucketKeyAddress, KeyNotifyRequest, FunctionCall,
  FunctionRequest, TriggerEntity, UpdateCoordMsg, Send, function_call, update_coord,
  get_bucket_key_from_addr,
}
use pheromone.Coordinator.Directory.{update_address}
use pheromone.Coordinator.Triggers.{empty_entity, empty_update, is_by_time}
use Routing.{choose_worker}
use Arguments.{arguments_for}

-- What a trigger does to the coordinator's maps: the new node statuses, apps and
-- seed, and the sends.
pub record Dispatched : Type 0 where
  pub nodes : Map Address NodeStatus
  pub apps : Map Bucket Bytes
  pub seed : ℕ
  pub sends : List Send

-- One of the node's executors is taken in advance.
unfoldable pub take_executor : Address → Map Address NodeStatus → Map Address NodeStatus
take_executor node nodes =
    let status = get_or (get nodes node) empty_status in
    put nodes node (record status { avail_executors = decrement status.avail_executors })

-- The bucket and session of the objects, where the client waits, and the flag for keys.
pub record Context : Type 0 where
  pub bucket : Bucket
  pub session : Session
  pub resp_address : Address
  pub arg_flag : ℕ

abbrev pub internal_call : Context → Bytes → FunctionRequest → FunctionCall
internal_call x app_name req = record {
  app_name = app_name;
  requests = req ∷ [];
  source = [];
  request_id = [];
  resp_address = x.resp_address;
  session_id = x.session;
  sync_data_status = true;
}

module _ (rand_r : ℕ → ℕ × ℕ) (io_thread_num : ℕ) where
  -- The call goes to the chosen worker, if there is one.
  unfoldable pub send_call : Address → FunctionCall → Dispatched → Dispatched
  unfolding take_executor
  send_call worker call d =
      let (r, seed') = rand_r d.seed in
      if is_empty worker then d else record {
        nodes = take_executor worker d.nodes;
        apps = d.apps;
        seed = seed';
        sends =
            d.sends
            ++ record {
              address = get_func_exec_address worker (r % io_thread_num);
              message = function_call call;
            }
              ∷ [];
      }

  -- One action: the app of the bucket (the lookup makes an entry for it), its arguments, the nodes with the data, the worker, the call.
  unfoldable pub run_action :
      Map Bytes Bytes
      → Map Key (List Address)
      → Context
      → TriggerAction
      → Dispatched
      → Option Dispatched
  run_action values addresses x action d = do
    (arguments, data_node) ← arguments_for values addresses x.bucket x.arg_flag action.session_keys
    let (worker, nodes) = choose_worker data_node d.nodes
    let req : FunctionRequest = record { name = action.function; arguments = arguments }
    let app_name = get_or (get d.apps x.bucket) []
    some (
        send_call worker (internal_call x app_name req)
          (record d { nodes = nodes; apps = put d.apps x.bucket app_name }))

  unfoldable pub run_actions :
      Map Bytes Bytes
      → Map Key (List Address)
      → Context
      → List TriggerAction
      → Dispatched
      → Option Dispatched
  run_actions values addresses x [] d = some d
  run_actions values addresses x (action ∷ actions) d = do
    d' ← run_action values addresses x action d
    run_actions values addresses x actions d'

  -- What one trigger's actions lead to; nothing, if the local scheduler has taken care of it.
  abbrev pub dispatch :
      List Bytes
      → Map Bytes Bytes
      → Map Key (List Address)
      → BucketKey
      → Address
      → Trigger
      → List TriggerAction
      → Dispatched
      → Option Dispatched
  dispatch active values addresses k resp t actions d =
      if Sets.contains active t.trigger_name
      then some d
      else run_actions values addresses
          (record {
            bucket = k.bucket;
            session = k.session;
            resp_address = resp;
            arg_flag = (t.trigger_option + 1) % 4294967296;
          })
          actions d

  -- The loop over the triggers of the bucket: every trigger sees the object; those that the local
  -- scheduler has taken care of do nothing else. The triggers, the names of those that have led to
  -- an action and are not time triggers, and what was dispatched.
  unfoldable pub run_triggers :
      ℕ
      → List Bytes
      → Map Bytes Bytes
      → Map Key (List Address)
      → BucketKey
      → Address
      → List Trigger
      → Dispatched
      → Option (List Trigger × List Bytes × Dispatched)
  run_triggers now active values addresses k resp [] d = some ([], [], d)
  run_triggers now active values addresses k resp (t ∷ ts) d =
      let (t', actions) = action_for_new_object now t k in
      let named =
        not (Sets.contains active t.trigger_name)
        && (not (is_empty actions) && not (is_by_time (get_type t))) in
      do
        d' ← dispatch active values addresses k resp t actions d
        (ts', names, d'') ← run_triggers now active values addresses k resp ts d'
        some (t' ∷ ts', if named then t.trigger_name ∷ names else names, d'')

-- The sync message for the nodes that hold objects of the bucket.
abbrev pub sync_entity : BucketKey → Bytes → TriggerEntity
sync_entity k name = record empty_entity {
  bucket_name = k.bucket;
  trigger_name = name;
  session = k.session;
}

unfoldable pub sync_nodes : UpdateCoordMsg → List Address → List Send
sync_nodes msg [] = []
sync_nodes msg (ip ∷ ips) =
    record { address = endpoint ip trigger_update_port; message = update_coord msg }
    ∷ sync_nodes msg ips

unfoldable pub sync_triggers : BucketKey → List Bytes → List Address → List Send
unfolding sync_nodes
sync_triggers k [] ips = []
sync_triggers k (name ∷ names) ips =
    sync_nodes (record empty_update { msg_type = 1; triggers = map (sync_entity k) (name ∷ names) })
      ips

-- The object's node and address are noted, and its value, if the message holds it.
unfoldable pub note_object : BucketKeyAddress → Address → Bytes → Coordinator → Coordinator
note_object a addr ip c =
    let k = get_bucket_key_from_addr a in
    let c' = record c {
      bucket_node_map =
          put c.bucket_node_map k.bucket
            (Sets.insert (get_or (get c.bucket_node_map k.bucket) []) ip);
      bucket_key_address_map = update_address k addr c.bucket_key_address_map;
    } in
    if is_empty a.payload
    then c'
    else record c' { bucket_key_val_map = put c'.bucket_key_val_map (shm_key_name k) a.payload }

module _ (rand_r : ℕ → ℕ × ℕ) (io_thread_num now : ℕ) where
  -- The triggers of the object's bucket.
  abbrev pub react :
      KeyNotifyRequest → BucketKey → Coordinator → Option (List Trigger × List Bytes × Dispatched)
  react request k c =
      run_triggers rand_r io_thread_num now request.active_trigger_names c.bucket_key_val_map
        (get_or (get c.bucket_key_address_map k.bucket) []) k request.response_address
        (get_or (get c.bucket_triggers_map k.bucket) [])
        (record { nodes = c.node_status_map; apps = c.bucket_app_map; seed = c.seed; sends = [] })

  abbrev finish :
      BucketKey → Coordinator → List Trigger × List Bytes × Dispatched → Coordinator × List Send
  finish k c (triggers, names, d) = (
    record c {
      bucket_triggers_map = put c.bucket_triggers_map k.bucket triggers;
      bucket_app_map = d.apps;
      node_status_map = d.nodes;
      seed = d.seed;
    },
    d.sends ++ sync_triggers k names (get_or (get c.bucket_node_map k.bucket) []),
  )

  -- One object of a known bucket, or with its value.
  unfoldable pub handle_object :
      KeyNotifyRequest → BucketKeyAddress → Coordinator → Option (Coordinator × List Send)
  handle_object request a c = do
    addr ← get_elem? a.ips 0
    ip ← ip_of_address addr
    let k = get_bucket_key_from_addr a
    let c' = note_object a addr ip c
    run ← react request k c'
    some (finish k c' run)

  -- The loop over the objects; one of an unknown bucket, without its value, ends it.
  unfoldable pub handle_objects :
      KeyNotifyRequest → List BucketKeyAddress → Coordinator → Option (Coordinator × List Send)
  handle_objects request [] c = some (c, [])
  handle_objects request (a ∷ rest) c =
      let go = (do
        (c', sends) ← handle_object request a c
        (c'', later) ← handle_objects request rest c'
        some (c'', sends ++ later)) in
      let stop = get_elem? a.ips 0 >>= λ addr. some (c, []) in
      if is_empty a.payload && not (has c.bucket_app_map a.bucket) then stop else go

  unfoldable pub notify_handler : Coordinator → KeyNotifyRequest → Option (Coordinator × List Send)
  unfolding handle_objects
  notify_handler c request = handle_objects request request.addresses c
