-- ===== src/Coordinator/Types.antt =====
-- include/coordinator/coord_handlers.hpp, the maps of coordinator.cpp's run(), and the messages of
-- common/proto. A message is its fields: the protocol buffer library carries them unchanged.
use pheromone.Base.{ℕ, Bytes, Address, Bucket, Key, Session, Bool, List, []}
use pheromone.Base.Int.{ℤ, pos}
use pheromone.Base.Maps.{Map}
use pheromone.Common.{BucketKey}
use pheromone.Trigger.Types.{PrimitiveType}
use pheromone.Trigger.Dispatch.{Trigger}

-- enum KVSError; 0, the first, is what an unset field reads as.
pub data KvsError : Type 0 where
  success bucket_ne key_ne session_ne kvs_nd type_nm bucket_exist req_timeout : KvsError

-- The time of the system clock is a number.
pub record NodeStatus : Type 0 where
  pub tp : ℕ
  pub avail_executors : ℤ
  pub functions : List Bytes

-- What map::operator[] makes for a new key.
abbrev pub empty_status : NodeStatus
empty_status = record { tp = 0; avail_executors = pos 0; functions = [] }

unfoldable pub update_status : ℕ → ℤ → List Bytes → NodeStatus → NodeStatus
update_status now avail_executors functions status = record {
  tp = now;
  avail_executors = avail_executors;
  functions = functions;
}

pub record GetAddressResult : Type 0 where
  pub error : KvsError
  pub addr : List Address

pub record BucketKeyAddress : Type 0 where
  pub bucket : Bucket
  pub key : Key
  pub session : Session
  pub ips : List Address
  pub payload : Bytes

-- common.hpp
unfoldable pub get_bucket_key_from_addr : BucketKeyAddress → BucketKey
get_bucket_key_from_addr a = record { bucket = a.bucket; key = a.key; session = a.session }

unfoldable pub get_addr_from_bucket_key : BucketKey → BucketKeyAddress
get_addr_from_bucket_key k = record {
  bucket = k.bucket;
  key = k.key;
  session = k.session;
  ips = [];
  payload = [];
}

pub record Argument : Type 0 where
  pub body : Bytes
  pub arg_flag : ℕ
  pub data_address : Address

pub record FunctionRequest : Type 0 where
  pub name : Bytes
  pub arguments : List Argument

pub record FunctionCall : Type 0 where
  pub app_name : Bytes
  pub requests : List FunctionRequest
  pub source : Address
  pub request_id : Bytes
  pub resp_address : Address
  pub session_id : Session
  pub sync_data_status : Bool

pub record FunctionCallResponse : Type 0 where
  pub app_name : Bytes
  pub request_id : Bytes
  pub output : Bytes
  pub error_no : ℕ

pub record RerunHint : Type 0 where
  pub source_function : Bytes
  pub source_key : Bytes
  pub timeout : ℕ

pub record TriggerEntity : Type 0 where
  pub bucket_name : Bucket
  pub trigger_name : Bytes
  pub trigger_option : ℕ
  pub primitive_type : PrimitiveType
  pub primitive : Bytes
  pub session : Session
  pub hints : List RerunHint

-- enum DependencyType, open as every proto3 enum.
pub data DependencyType : Type 0 where
  direct many_to_one k_out_of_n periodic : DependencyType
  unknown_dependency : ℕ → DependencyType

pub record DataDependency : Type 0 where
  pub type_of : DependencyType
  pub src_functions : List Bytes
  pub tgt_functions : List Bytes
  pub description : Bytes

pub record AppRegistration : Type 0 where
  pub app_name : Bytes
  pub functions : List Bytes
  pub dependencies : List DataDependency

pub record UpdateCoordMsg : Type 0 where
  pub ip : Address
  pub thread_id : ℕ
  pub app_name : Bytes
  pub functions : List Bytes
  pub dependencies : List DataDependency
  pub triggers : List TriggerEntity
  pub msg_type : ℕ

pub record KeyQueryRequest : Type 0 where
  pub response_address : Address
  pub addresses : List BucketKeyAddress
  pub request_id : Bytes

pub record KeyQueryResponse : Type 0 where
  pub addresses : List BucketKeyAddress
  pub error : KvsError
  pub response_id : Bytes

pub record KeyNotifyRequest : Type 0 where
  pub response_address : Address
  pub addresses : List BucketKeyAddress
  pub active_trigger_names : List Bytes
  pub request_id : Bytes

pub data BucketOperationType : Type 0 where
  create_bucket delete_bucket : BucketOperationType
  unknown_bucket_operation : ℕ → BucketOperationType

pub record BucketOperationRequest : Type 0 where
  pub operation_type : BucketOperationType
  pub app_name : Bytes
  pub bucket_name : Bucket
  pub request_id : Bytes
  pub response_address : Address

pub record BucketOperationResponse : Type 0 where
  pub bucket_name : Bucket
  pub response_id : Bytes
  pub error : KvsError

pub data TriggerOperationType : Type 0 where
  add_trigger delete_trigger : TriggerOperationType
  unknown_trigger_operation : ℕ → TriggerOperationType

pub record TriggerOperationRequest : Type 0 where
  pub operation_type : TriggerOperationType
  pub app_name : Bytes
  pub bucket_name : Bucket
  pub trigger_name : Bytes
  pub trigger_option : ℕ
  pub primitive_type : PrimitiveType
  pub primitive : Bytes
  pub request_id : Bytes
  pub response_address : Address
  pub hints : List RerunHint

pub record TriggerOperationResponse : Type 0 where
  pub bucket_name : Bucket
  pub trigger_name : Bytes
  pub response_id : Bytes
  pub error : KvsError

pub record UpdateStatusMessage : Type 0 where
  pub ip : Address
  pub avail_executors : ℕ
  pub functions : List Bytes

pub data Message : Type 0 where
  key_query_response : KeyQueryResponse → Message
  bucket_operation_response : BucketOperationResponse → Message
  trigger_operation_response : TriggerOperationResponse → Message
  update_coord : UpdateCoordMsg → Message
  function_call : FunctionCall → Message
  function_call_response : FunctionCallResponse → Message

-- kZmqUtil->send_string(message, &pushers[address]); the queueing library is not modelled, and a
-- handler returns its sends in order.
pub record Send : Type 0 where
  pub address : Address
  pub message : Message

-- The maps of run(), and the seed of the random numbers.
pub record Coordinator : Type 0 where
  pub bucket_key_address_map : Map Bucket (Map Key (List Address))
  pub bucket_key_val_map : Map Bytes Bytes
  pub bucket_node_map : Map Bucket (List Address)
  pub bucket_triggers_map : Map Bucket (List Trigger)
  pub app_buckets_map : Map Bytes (List Bucket)
  pub bucket_app_map : Map Bucket Bytes
  pub node_status_map : Map Address NodeStatus
  pub seed : ℕ

abbrev pub init : ℕ → Coordinator
init seed = record {
  bucket_key_address_map = [];
  bucket_key_val_map = [];
  bucket_node_map = [];
  bucket_triggers_map = [];
  app_buckets_map = [];
  bucket_app_map = [];
  node_status_map = [];
  seed = seed;
}
