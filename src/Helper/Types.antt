-- ===== src/Helper/Types.antt =====
-- comm_helper.hpp: the state of a CommHelper, less its sockets, and the addresses that it uses.
use pheromone.Base.{
  ℕ, ◌+◌, ◌%◌, Bytes, Bucket, Address, Bool, List, [], ◌∷◌, ◌++◌, some, none, nat_beq,
  if◌then◌else◌, bytes_eq,
}
use pheromone.Base.Maps.{Map, get, get_or}
use pheromone.Common.Addresses.{endpoint}
use pheromone.Common.Decimal.{to_string}
use pheromone.Threads.{
  Thread, data_access_server_port, service_connect, kvs, notify_handler, key_query_handler,
}

-- `io_thread_id` and `rid` are unsigned; `ut` is the helper's own thread.
pub record CommHelper : Type 0 where
  pub key_address_cache : Map Bytes Address
  pub app_coord_map : Map Bytes Thread
  pub bucket_coord_map : Map Bucket Thread
  pub routing_threads : List Thread
  pub rid : ℕ
  pub io_thread_count : ℕ
  pub io_thread_id : ℕ
  pub ut : Thread
  pub ip : Address

-- The next thread in turn.
unfoldable pub get_io_thread_id : Bool → CommHelper → ℕ × CommHelper
get_io_thread_id exclude_main_thread h =
    let next = (h.io_thread_id + 1) % 4294967296 in
    let id =
      if nat_beq (next % h.io_thread_count) 0
      then (if exclude_main_thread then 1 else 0)
      else next in
    (id, record h { io_thread_id = id })

unfoldable pub get_data_server_addr : Bool → CommHelper → Address × CommHelper
unfolding get_io_thread_id endpoint
get_data_server_addr exclude_main_thread h =
    let (id, h') = get_io_thread_id exclude_main_thread h in
    (endpoint h.ip (id + data_access_server_port), h')

-- An empty address where the key's place is not known.
unfoldable pub get_key_address : Bytes → CommHelper → Address
get_key_address key h = get_or (get h.key_address_cache key) []

unfoldable pub get_notifying_thread : Bucket → CommHelper → Address
get_notifying_thread bucket h = elim (get h.bucket_coord_map bucket) [
  | none ↦ []
  | some t ↦ service_connect (kvs notify_handler) t
]

unfoldable pub get_querying_thread : Bucket → CommHelper → Address
get_querying_thread bucket h = elim (get h.bucket_coord_map bucket) [
  | none ↦ []
  | some t ↦ service_connect (kvs key_query_handler) t
]

-- The counter starts again at 10000; it is raised twice for a request.
unfoldable pub get_request_id : CommHelper → Bytes × CommHelper
get_request_id h =
    let next = (h.rid + 1) % 4294967296 in
    let rid = if nat_beq (next % 10000) 0 then 0 else next in
    (
      h.ut.ip ++ (b':' ∷ (to_string h.ut.tid ++ (b'_' ∷ to_string rid))),
      record h { rid = (rid + 1) % 4294967296 },
    )
