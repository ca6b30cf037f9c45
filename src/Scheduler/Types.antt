-- ===== src/Scheduler/Types.antt =====
-- scheduler_server.cpp and comm_helper.hpp: the scheduler's data. The clock counts nanoseconds.
use pheromone.Base.{ℕ, zero, suc, Bytes, Address, Bucket, Session, Bool, List, [], ◌∷◌}
use pheromone.Base.Maps.{Map}
use pheromone.Common.{BucketKey}
use pheromone.Trigger.Dispatch.{Trigger}

-- executor_status_map: 0: empty, 1: available, 2: await, 3: busy.
pub data ExecutorStatus : Type 0 where
  empty available await busy : ExecutorStatus

-- recv_time_ is only logged.
pub record InflightIoRequest : Type 0 where
  pub executor_id : ℕ
  pub req_id : ℕ

pub record DelayFunctionCall : Type 0 where
  pub session_id : Session
  pub app_name : Bytes
  pub func_name : Bytes
  pub func_args : List Bytes
  pub arg_flag : ℕ
  pub trigger_time : ℕ

-- A TriggerPointer is shared: it is an index into the scheduler's triggers.
abbrev pub TriggerPointer : Type 0
TriggerPointer = ℕ

pub record RerunCheckQueueItem : Type 0 where
  pub check_time : ℕ
  pub session : Session
  pub trigger_ptr : TriggerPointer

-- The timeout counts milliseconds.
pub record RerunTriggerTimeout : Type 0 where
  pub trigger_ptr : TriggerPointer
  pub timeout : ℕ

pub record AppInfo : Type 0 where
  pub functions : List Bytes
  pub direct_deps : Map Bytes (List Bytes)
  pub buckets : List Bucket

-- What map::operator[] makes for a new app.
abbrev pub empty_app : AppInfo
empty_app = record { functions = []; direct_deps = []; buckets = [] }

pub record InflightFuncArgs : Type 0 where
  pub func_name : Bytes
  pub session_id : Session
  pub key_args : List Bytes
  pub inflight_args : List Bytes
  pub arg_flag : ℕ

-- RecvMsg, by its message type.
pub data RecvMsg : Type 0 where
  call : Bytes → Address → Session → List (Bytes × List Bytes × ℕ) → RecvMsg
  data_resp : Bytes → ℕ → RecvMsg
  kvs_get_resp : Bytes → ℕ → RecvMsg
  kvs_put_resp : Bytes → RecvMsg

-- The calls of the scheduler's CommHelperInterface, and what is sent to an executor's channel.
pub data Effect : Type 0 where
  send_to_executer : ℕ → Bytes → Effect
  forward_func_call : Address → Bytes → List Bytes → List (List Bytes) → ℕ → Session → Effect
  send_data_req : Bytes → Effect
  get_kvs_async : Bytes → Effect
  put_kvs_async : Bytes → Bytes → Effect
  notify_put : BucketKey → List Bytes → Address → Bytes → Effect
  client_response : Address → Bytes → Bytes → Effect
  update_status : ℕ → List Bytes → Effect

-- The variables of scheduler_server.cpp and of its run(). An operator[] that makes an empty entry in
-- a map that is never searched nor counted leaves no trace here.
pub record Scheduler : Type 0 where
  pub triggers : List Trigger
  pub bucket_triggers_map : Map Bucket (List TriggerPointer)
  pub delay_call_queue : List DelayFunctionCall
  pub key_len_map : Map Bytes ℕ
  pub key_val_map : Map Bytes Bytes
  pub session_client_addr_map : Map Session Address
  pub rerun_check_queue : List RerunCheckQueueItem
  pub func_trigger_timeout_map : Map Bytes (List RerunTriggerTimeout)
  pub call_id : ℕ
  pub call_id_inflight_args_map : Map ℕ InflightFuncArgs
  pub key_call_id_map : Map Bytes (List ℕ)
  pub key_remote_get_map : Map Bytes (List InflightIoRequest)
  pub key_ksv_put_map : Map Bytes (List InflightIoRequest)
  pub app_info_map : Map Bytes AppInfo
  pub func_app_map : Map Bytes Bytes
  pub bucket_app_map : Map Bucket Bytes
  pub function_cache : List Bytes
  pub function_executor_map : Map Bytes (List ℕ)
  pub executor_status_map : Map ℕ ExecutorStatus
  pub report_start : ℕ
  pub ram_seed : ℕ

-- The configuration, and what the code takes from libraries: rand_r, and the bytes of an object of a
-- length in the shared memory.
pub record Settings : Type 0 where
  pub rand_r : ℕ → ℕ × ℕ
  pub get_mem : Bytes → ℕ → Bytes
  pub executor_num : ℕ
  pub sched_delay_time : ℕ
  pub shared_executor : Bool
  pub reject_extra_req : Bool

-- The status of every executor before it has reported.
abbrev pub all_await : ℕ → Map ℕ ExecutorStatus → Map ℕ ExecutorStatus
all_await zero m = m
all_await (suc n) m = all_await n ((n, await) ∷ m)

abbrev pub init : ℕ → ℕ → ℕ → Scheduler
init executor_num now seed = record {
  triggers = [];
  bucket_triggers_map = [];
  delay_call_queue = [];
  key_len_map = [];
  key_val_map = [];
  session_client_addr_map = [];
  rerun_check_queue = [];
  func_trigger_timeout_map = [];
  call_id = 0;
  call_id_inflight_args_map = [];
  key_call_id_map = [];
  key_remote_get_map = [];
  key_ksv_put_map = [];
  app_info_map = [];
  func_app_map = [];
  bucket_app_map = [];
  function_cache = [];
  function_executor_map = [];
  executor_status_map = all_await executor_num [];
  report_start = now;
  ram_seed = seed;
}
