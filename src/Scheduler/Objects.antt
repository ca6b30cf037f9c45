-- ===== src/Scheduler/Objects.antt =====
-- scheduler_server.cpp, run(): the objects that executors send. An index out of range is a crash.
use pheromone.Base.{
  ℕ, ◌+◌, ◌%◌, Bytes, Bucket, Session, List, [], ◌∷◌, ◌++◌, Option, some, none, nat_beq, ltb,
  if◌then◌else◌, ◌>>=◌, bytes_eq, bytes_beq, nat_eq, length, take, drop,
}
use pheromone.Base.Maps.{Map, get, put, get_or, is_empty}
use pheromone.Base.Sets.{contains}
use pheromone.Base.Runs.{Run, skip, emit, modify, given, ◌▷◌, each}
use pheromone.Common.{
  delimiter_char, delimiter, bucket_name_direct_invoc, of_session_key, BucketKey,
}
use pheromone.Common.Split.{split}
use pheromone.Common.Stoi.{stoi}
use pheromone.Scheduler.Types.{
  Scheduler, Settings, Effect, put_kvs_async, notify_put, client_response, InflightIoRequest,
  empty_app,
}
use pheromone.Scheduler.Statuses.{get_avail_executor_num}
use pheromone.Scheduler.Forward.{client_of, forward_call_via_helper}
use pheromone.Scheduler.Schedule.{schedule_func_call}
use pheromone.Scheduler.Arrivals.{check_trigger}

-- map[key].push_back(request)
abbrev pub add_request :
    Map Bytes (List InflightIoRequest)
    → Bytes
    → InflightIoRequest
    → Map Bytes (List InflightIoRequest)
add_request m key request = put m key (get_or (get m key) [] ++ request ∷ [])

abbrev pub await_object : Bytes → InflightIoRequest → Scheduler → Scheduler
await_object key request s = record s {
  key_remote_get_map = add_request s.key_remote_get_map key request;
}

-- 3 means generic response, 1 that it is a success.
abbrev pub response : ℕ → Bytes → Bytes
response req_id value = 3 ∷ req_id ∷ 1 ∷ value

-- The six parts of the parameters of an object.
pub record ObjectInfo : Type 0 where
  pub session_id : Session
  pub src_function : Bytes
  pub tgt_function : Bytes
  pub bucket : Bucket
  pub session_key : Bytes
  pub content : Bytes

unfoldable pub object_info : List Bytes → Option ObjectInfo
object_info (session_id ∷ src ∷ tgt ∷ bucket ∷ session_key ∷ content ∷ rest) = some (record {
  session_id = session_id;
  src_function = src;
  tgt_function = tgt;
  bucket = bucket;
  session_key = session_key;
  content = content;
})
object_info _ = none

abbrev pub obj_name : ObjectInfo → Bytes
obj_name o = o.bucket ++ (delimiter ++ o.session_key)

module _ (st : Settings) (now : ℕ) where
  abbrev pub keep_value : ObjectInfo → Bytes → Scheduler → Scheduler
  keep_value o value s = record s {
    key_val_map = put s.key_val_map (obj_name o) value;
    key_len_map = put s.key_len_map (obj_name o) (length value);
  }

  -- The object is known: packed as a value, as a length in shared memory, or not at all.
  unfoldable pub note_object : ℕ → ObjectInfo → Run Scheduler Effect
  note_object packing o s =
      (if nat_beq packing 1
          then modify (keep_value o o.content)
          else if nat_beq packing 2
          then given (stoi o.content)
              (λ size. modify (λ t. record t { key_len_map = put t.key_len_map (obj_name o) size }))
          else skip)
        s

  -- The arguments of a direct invocation and their flag.
  abbrev pub direct_args : ℕ → ObjectInfo → List Bytes × ℕ
  direct_args packing o =
      if nat_beq packing 1
      then (o.content ∷ [], 0)
      else if nat_beq packing 2
      then (obj_name o ∷ o.content ∷ [], 1)
      else ([], 1)

  abbrev pub schedule_targets : Session → Bytes → List Bytes → ℕ → List Bytes → Run Scheduler Effect
  schedule_targets session app_name args arg_flag =
      each (λ func. schedule_func_call st now session app_name func args arg_flag)

  abbrev pub copies : List Bytes → List Bytes → List (List Bytes)
  copies args [] = []
  copies args (func ∷ funcs) = args ∷ copies args funcs

  -- Batch forwarding: as many targets as there are free executors are scheduled here.
  unfoldable pub invoke_all : Session → Bytes → List Bytes → ℕ → List Bytes → Run Scheduler Effect
  unfolding get_avail_executor_num schedule_func_call forward_call_via_helper
  invoke_all session app_name args arg_flag targets s =
      let avail = get_avail_executor_num s.executor_status_map in
      let remote = drop avail targets in
      (if ltb avail (length targets)
          then schedule_targets session app_name args arg_flag (take avail targets)
            ▷ (if st.reject_extra_req
                then skip
                else forward_call_via_helper st session app_name remote (copies args remote)
                    arg_flag)
          else schedule_targets session app_name args arg_flag targets)
        s

  -- To every function that depends on the source, or to the named one if it does.
  unfoldable pub direct_invocation : ℕ → ObjectInfo → Bytes → List Bytes → Run Scheduler Effect
  unfolding invoke_all schedule_func_call
  direct_invocation packing o app_name targets =
      let (args, arg_flag) = direct_args packing o in
      if is_empty o.tgt_function
      then invoke_all o.session_id app_name args arg_flag targets
      else if contains targets o.tgt_function
      then schedule_func_call st now o.session_id app_name o.tgt_function args arg_flag
      else skip

  -- The coordinator is told, with the value of an object that came as one.
  unfoldable pub told : ℕ → ObjectInfo → BucketKey → List Bytes → Scheduler → List Effect
  told packing o k names s =
      let client = client_of o.session_id s in
      if nat_beq packing 1
      then notify_put k names client (get_or (get s.key_val_map (obj_name o)) []) ∷ []
      else if nat_beq packing 2
      then notify_put k names client [] ∷ []
      else []

  unfoldable pub trigger_check : ℕ → ObjectInfo → Run Scheduler Effect
  unfolding check_trigger told
  trigger_check packing o s = do
    let k = of_session_key o.bucket o.session_key
    (names, s', effects) ← check_trigger st now k o.session_id s
    some (
      record s' { call_id = (s'.call_id + length names) % 4294967296 },
      effects ++ told packing o k names s',
    )

  -- The functions that depend on the source, if any do: else the triggers of the bucket.
  unfoldable pub react : ℕ → ObjectInfo → Bytes → Option (List Bytes) → Run Scheduler Effect
  unfolding direct_invocation trigger_check
  react packing o app_name none =
      if bytes_beq o.bucket bucket_name_direct_invoc then skip else trigger_check packing o
  react packing o app_name (some targets) = direct_invocation packing o app_name targets

  -- An object for the ephemeral store.
  unfoldable pub ephemeral_object : ℕ → ObjectInfo → Run Scheduler Effect
  unfolding react
  ephemeral_object packing o s =
      let app_name = get_or (get s.func_app_map o.src_function) [] in
      let app = get_or (get s.app_info_map app_name) empty_app in
      react packing o app_name (get app.direct_deps o.src_function) s

  -- An object for the key-value store.
  unfoldable pub durable_object : ℕ → ℕ → ℕ → ObjectInfo → Run Scheduler Effect
  durable_object id req_id packing o =
      (if nat_beq packing 1
        then emit (put_kvs_async o.session_key o.content)
        else if nat_beq packing 2
        then given (stoi o.content)
            (λ size. emit (put_kvs_async o.session_key (st.get_mem (obj_name o) size)))
        else skip)
      ▷ modify (λ s. record s {
        key_ksv_put_map =
            add_request s.key_ksv_put_map o.session_key
              (record { executor_id = id; req_id = req_id });
      })

  abbrev pub output_of : ℕ → ObjectInfo → Option Bytes
  output_of packing o =
      if nat_beq packing 1
      then some o.content
      else if nat_beq packing 2
      then (stoi o.content >>= λ size. some (st.get_mem (obj_name o) size))
      else some []

  -- The output of a call, for the client.
  unfoldable pub client_object : ℕ → ObjectInfo → Run Scheduler Effect
  client_object packing o s =
      given (output_of packing o)
        (λ output. emit (
          client_response (client_of o.session_id s) (get_or (get s.func_app_map o.src_function) [])
            output))
        s

  unfoldable pub send_known : ℕ → ℕ → ℕ → ℕ → Option ObjectInfo → Run Scheduler Effect
  unfolding note_object ephemeral_object durable_object client_object
  send_known id type req_id packing none = skip
  send_known id type req_id packing (some o) =
      if nat_beq type 2
      then note_object packing o ▷ ephemeral_object packing o
      else if nat_beq type 3
      then durable_object id req_id packing o
      else client_object packing o

  -- The send object handler. Fewer than six parts are ignored.
  unfoldable pub send_object : ℕ → ℕ → ℕ → ℕ → Bytes → Run Scheduler Effect
  unfolding object_info send_known
  send_object id type req_id packing params =
      send_known id type req_id packing (object_info (split params delimiter_char))
