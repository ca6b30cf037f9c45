-- ===== src/Threads/Tests.antt =====
-- The addresses of concrete threads.
use pheromone.Base.{◌≡◌, refl, bytes, arith}
use pheromone.Common.Decimal.{to_string}
use pheromone.Threads.{
  Thread, kvs, kvs_port, notify_handler, service_connect, port_of, connect_address,
}
use pheromone.Threads.Ports.{service_bind-injective}

abbrev first_handler : Thread
first_handler = record { ip = bytes "10.0.0.1"; tid = 1 }

service_bind-injective_example :
    (kvs notify_handler ≡ kvs notify_handler) × (first_handler.tid ≡ first_handler.tid)
service_bind-injective_example =
    service_bind-injective (kvs notify_handler) (kvs notify_handler) first_handler first_handler
      (omega arith) (omega arith) refl

connected : service_connect (kvs notify_handler) first_handler ≡ bytes "tcp://10.0.0.1:7351"
unfolding service_connect port_of kvs_port connect_address to_string
connected = refl
