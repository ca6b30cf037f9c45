-- ===== src/Common/Addresses.antt =====
-- The addresses of threads: kvs_threads.hpp, coord_handlers.hpp, and the node that notify_handler.cpp
-- takes from an address by ip.substr(6, ip.find(":", 6) - 6).
use pheromone.Base.{
  ℕ, ◌+◌, ◌≡◌, Address, Bytes, bytes, ◌∷◌, ◌++◌, Option, some, none, false, length, drop, ltb,
  nat_eq, take-append_length, if◌then◌else◌, arith,
}
use pheromone.Base.Sets.{contains}
use pheromone.Common.{find, before}
use pheromone.Common.Decimal.{to_string}
use pheromone.Common.Names.{find_here}

abbrev pub func_exec_port : ℕ
func_exec_port = 4300

abbrev pub trigger_update_port : ℕ
trigger_update_port = 7700

unfoldable pub endpoint : Bytes → ℕ → Address
endpoint ip port = bytes "tcp://" ++ (ip ++ (b':' ∷ to_string port))

unfoldable pub get_func_exec_address : Bytes → ℕ → Address
unfolding endpoint
get_func_exec_address ip io_thread = endpoint ip (func_exec_port + io_thread)

-- `none` is std::out_of_range: the text is shorter than the prefix that is cut off.
unfoldable pub ip_of_address : Address → Option Bytes
unfolding find before
ip_of_address address =
    let rest = drop 6 address in
    if ltb (length address) 6 then none else some (before (find b':' rest) rest)

-- The node's ip is read back from the address of any of its ports, if it has no colon.
pub ip_of_address-endpoint :
    (ip : Bytes) (port : ℕ) → contains ip b':' ≡ false → ip_of_address (endpoint ip port) ≡ some ip
unfolding ip_of_address endpoint before
ip_of_address-endpoint ip port h =
    rw (find_here b':' ip (to_string port) h, take-append_length ip (b':' ∷ to_string port))
      (ground arith)
