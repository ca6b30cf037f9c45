-- ===== src/Threads/Ports.antt =====
-- No two sockets share a port, while the thread ids are small.
use pheromone.Base.{ℕ, ◌+◌, ◌<◌, ◌≡◌, sym, ap, ◌∙◌, Bytes, arith, drop, ltb, if◌then◌else◌}
use pheromone.Common.Decimal.{to_string, value_from, value-to_string}
use pheromone.Threads.{
  Thread, Service, kvs, func_exec, manager, coord_sync, coord_query, manager_port, offset,
  operation, anna, kvs_port, operation_port, anna_port, port_of, bind_address, service_bind,
  remote_get, remote_response, key_query, notify_put, trigger_update, data_access_server,
  data_access_client, notify_handler, key_query_handler, update_handler, forward_func, bucket_query,
  bucket_update, bucket_op, trigger_op, func_create, app_regist, func_call, cache_update,
  routing_key_address, user_response, user_key_address,
}

-- The socket of a port, if the thread id is below 20.
abbrev service_at : ℕ → Service
service_at p =
    if ltb p 4400
    then func_exec
    else if ltb p 4450
    then kvs data_access_server
    else if ltb p 4500
    then kvs data_access_client
    else if ltb p 5000
    then kvs forward_func
    else if ltb p 5020
    then operation func_create
    else if ltb p 5050
    then operation app_regist
    else if ltb p 6001
    then operation func_call
    else if ltb p 6002
    then manager coord_sync
    else if ltb p 6450
    then manager coord_query
    else if ltb p 6800
    then anna routing_key_address
    else if ltb p 6850
    then anna user_response
    else if ltb p 7150
    then anna user_key_address
    else if ltb p 7350
    then anna cache_update
    else if ltb p 7400
    then kvs notify_handler
    else if ltb p 7500
    then kvs key_query_handler
    else if ltb p 7550
    then kvs remote_response
    else if ltb p 7600
    then kvs remote_get
    else if ltb p 7650
    then kvs notify_put
    else if ltb p 7700
    then kvs key_query
    else if ltb p 7750
    then kvs trigger_update
    else if ltb p 7800
    then kvs update_handler
    else if ltb p 7900
    then operation bucket_op
    else if ltb p 8150
    then operation trigger_op
    else if ltb p 8250
    then kvs bucket_query
    else kvs bucket_update

service_at-port_of :
    (s : Service) (t : Thread) → t.tid < 20 → service_at (offset s t + port_of s) ≡ s
unfolding port_of kvs_port operation_port anna_port manager_port
service_at-port_of func_exec t h = ground arith
service_at-port_of (manager coord_sync) t h = ground arith
service_at-port_of (manager coord_query) t h = ground arith
service_at-port_of (kvs remote_get) t h = ground arith
service_at-port_of (kvs remote_response) t h = ground arith
service_at-port_of (kvs key_query) t h = ground arith
service_at-port_of (kvs notify_put) t h = ground arith
service_at-port_of (kvs trigger_update) t h = ground arith
service_at-port_of (kvs data_access_server) t h = ground arith
service_at-port_of (kvs data_access_client) t h = ground arith
service_at-port_of (kvs notify_handler) t h = ground arith
service_at-port_of (kvs key_query_handler) t h = ground arith
service_at-port_of (kvs update_handler) t h = ground arith
service_at-port_of (kvs forward_func) t h = ground arith
service_at-port_of (kvs bucket_query) t h = ground arith
service_at-port_of (kvs bucket_update) t h = ground arith
service_at-port_of (operation bucket_op) t h = ground arith
service_at-port_of (operation trigger_op) t h = ground arith
service_at-port_of (operation func_create) t h = ground arith
service_at-port_of (operation app_regist) t h = ground arith
service_at-port_of (operation func_call) t h = ground arith
service_at-port_of (anna cache_update) t h = ground arith
service_at-port_of (anna routing_key_address) t h = ground arith
service_at-port_of (anna user_response) t h = ground arith
service_at-port_of (anna user_key_address) t h = ground arith

-- What stands behind the base of a bind address.
abbrev behind_base : Bytes → Bytes
behind_base address = drop 8 address

-- Where two of the sockets are bound to the same address, and the ids of their threads are below 20,
-- they are the same socket, of threads with the same id unless it is one of the manager's two, which
-- depend on no thread.
pub service_bind-injective :
    (s s' : Service) (t t' : Thread)
    → t.tid < 20
    → t'.tid < 20
    → service_bind s t ≡ service_bind s' t'
    → (s ≡ s') × (offset s t ≡ offset s' t')
unfolding service_bind bind_address
service_bind-injective s s' t t' h h' same =
    let texts : to_string (offset s t + port_of s) ≡ to_string (offset s' t' + port_of s') =
      ap behind_base same in
    let ports : offset s t + port_of s ≡ offset s' t' + port_of s' =
      sym (value-to_string (offset s t + port_of s))
      ∙ ap (value_from 0) texts
      ∙ value-to_string (offset s' t' + port_of s') in
    let services : s ≡ s' =
      sym (service_at-port_of s t h) ∙ ap service_at ports ∙ service_at-port_of s' t' h' in
    (services, omega (arith, ports, ap port_of services))
