-- ===== src/Threads.antt =====
-- common/include/kvs_threads.hpp, op_threads.hpp and anna_threads.hpp: the addresses of the threads'
-- sockets, with those that comm_helper.hpp and manager_server.cpp bind by their ports. A class
-- has an ip, the base of its addresses and a thread id; Address ip_base_ is made from the ip.
pub mod Ports
mod Tests
use pheromone.Base.{ℕ, ◌+◌, Bytes, bytes, Address, Bool, ◌++◌, ◌&&◌, ◌==◌, nat_beq, bytes_eq}
use pheromone.Common.Decimal.{to_string}
use pheromone.Common.Addresses.{func_exec_port, trigger_update_port}

abbrev pub internal_func_call_port : ℕ
internal_func_call_port = 4350

abbrev pub data_access_server_port : ℕ
data_access_server_port = 4400

abbrev pub data_access_client_port : ℕ
data_access_client_port = 4450

abbrev pub forward_func_port : ℕ
forward_func_port = 4500

abbrev pub remote_response_port : ℕ
remote_response_port = 7500

abbrev pub remote_get_port : ℕ
remote_get_port = 7550

abbrev pub notify_port : ℕ
notify_port = 7600

abbrev pub query_port : ℕ
query_port = 7650

abbrev pub notify_handler_port : ℕ
notify_handler_port = 7350

abbrev pub query_handler_port : ℕ
query_handler_port = 7400

abbrev pub update_status_handler_port : ℕ
update_status_handler_port = 7750

abbrev pub bucket_query_port : ℕ
bucket_query_port = 8150

abbrev pub bucket_update_port : ℕ
bucket_update_port = 8250

abbrev pub func_create_port : ℕ
func_create_port = 5000

abbrev pub app_regist_port : ℕ
app_regist_port = 5020

abbrev pub func_call_port : ℕ
func_call_port = 5050

abbrev pub coord_sync_port : ℕ
coord_sync_port = 6001

abbrev pub coord_query_port : ℕ
coord_query_port = 6002

abbrev pub o_bucket_port : ℕ
o_bucket_port = 7800

abbrev pub o_trigger_port : ℕ
o_trigger_port = 7900

abbrev pub key_address_port : ℕ
key_address_port = 6450

abbrev pub user_response_port : ℕ
user_response_port = 6800

abbrev pub user_key_address_port : ℕ
user_key_address_port = 6850

abbrev pub cache_update_port : ℕ
cache_update_port = 7150

-- kBindBase
abbrev pub bind_base : Bytes
bind_base = bytes "tcp://*:"

-- The members that the classes of threads share.
pub record Thread : Type 0 where
  pub ip : Address
  pub tid : ℕ

abbrev pub ip_base : Thread → Bytes
ip_base t = bytes "tcp://" ++ (t.ip ++ bytes ":")

unfoldable pub bind_address : ℕ → Thread → Address
bind_address port t = bind_base ++ to_string (t.tid + port)

unfoldable pub connect_address : ℕ → Thread → Address
connect_address port t = ip_base t ++ to_string (t.tid + port)

-- HandlerThread::has_same_ip_tid
unfoldable pub has_same_ip_tid : Thread → Address → ℕ → Bool
has_same_ip_tid t ip tid = t.ip == ip && nat_beq t.tid tid

-- The sockets of KVSThread, CommHelperThread, HandlerThread and ManagementServerThread, each with
-- the port in its bind and connect addresses.
pub data KvsSocket : Type 0 where
  remote_get remote_response key_query notify_put trigger_update data_access_server
        data_access_client notify_handler key_query_handler update_handler forward_func bucket_query
        bucket_update :
      KvsSocket

unfoldable pub kvs_port : KvsSocket → ℕ
kvs_port remote_get = remote_get_port
kvs_port remote_response = remote_response_port
kvs_port key_query = query_port
kvs_port notify_put = notify_port
kvs_port trigger_update = trigger_update_port
kvs_port data_access_server = data_access_server_port
kvs_port data_access_client = data_access_client_port
kvs_port notify_handler = notify_handler_port
kvs_port key_query_handler = query_handler_port
kvs_port update_handler = update_status_handler_port
kvs_port forward_func = forward_func_port
kvs_port bucket_query = bucket_query_port
kvs_port bucket_update = bucket_update_port

-- The sockets of OperationThread.
pub data OperationSocket : Type 0 where
  bucket_op trigger_op func_create app_regist func_call : OperationSocket

unfoldable pub operation_port : OperationSocket → ℕ
operation_port bucket_op = o_bucket_port
operation_port trigger_op = o_trigger_port
operation_port func_create = func_create_port
operation_port app_regist = app_regist_port
operation_port func_call = func_call_port

-- The sockets of CacheThread, UserRoutingThread and UserThread.
pub data AnnaSocket : Type 0 where
  cache_update routing_key_address user_response user_key_address : AnnaSocket

unfoldable pub anna_port : AnnaSocket → ℕ
anna_port cache_update = cache_update_port
anna_port routing_key_address = key_address_port
anna_port user_response = user_response_port
anna_port user_key_address = user_key_address_port

-- The sockets of the manager, one of each: their ports do not depend on a thread.
pub data ManagerSocket : Type 0 where
  coord_sync coord_query : ManagerSocket

unfoldable pub manager_port : ManagerSocket → ℕ
manager_port coord_sync = coord_sync_port
manager_port coord_query = coord_query_port

-- func_exec is bound by the main thread of a CommHelper, which is thread 0, and by its IO threads.
pub data Service : Type 0 where
  func_exec : Service
  manager : ManagerSocket → Service
  kvs : KvsSocket → Service
  operation : OperationSocket → Service
  anna : AnnaSocket → Service

unfoldable pub port_of : Service → ℕ
unfolding kvs_port operation_port anna_port manager_port
port_of func_exec = func_exec_port
port_of (manager s) = manager_port s
port_of (kvs s) = kvs_port s
port_of (operation s) = operation_port s
port_of (anna s) = anna_port s

-- What is added to the port.
abbrev pub offset : Service → Thread → ℕ
offset (manager s) t = 0
offset _ t = t.tid

-- remote_get_bind_address, notify_handler_bind_address, and so on.
unfoldable pub service_bind : Service → Thread → Address
unfolding bind_address port_of
service_bind s t = bind_address (port_of s) (record t { tid = offset s t })

-- remote_get_connect_address, notify_handler_connect_address, and so on.
unfoldable pub service_connect : Service → Thread → Address
unfolding connect_address port_of
service_connect s t = connect_address (port_of s) (record t { tid = offset s t })
