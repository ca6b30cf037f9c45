-- ===== src/Helper/Objects.antt =====
-- comm_helper.hpp: the requests for objects of other nodes and the responses. An index out of range is
-- `none`.
use mathlib.Core.Path.{subst}
use pheromone.Base.{
  Holds, Holds-if, ℕ, ◌+◌, ◌%◌, ◌<◌, ◌≡◌, refl, Bytes, Address, [], ◌∷◌, ◌++◌, Option, none, some,
  length, take, drop, ltb, lt→ltb, leb, le→leb, length-append, take-append_length,
  drop-append_length, false, if◌then◌else◌, arith, ◌>>=◌,
}
use pheromone.Base.Maps.{is_empty}
use pheromone.Common.Addresses.{endpoint}
use pheromone.Threads.{data_access_client_port}
use pheromone.Scheduler.Types.{RecvMsg, data_resp}
use pheromone.Helper.Types.{CommHelper, get_key_address}

-- The length of the key in one byte, the key, and the rest.
abbrev pub framed : Bytes → Bytes → Bytes
framed key rest = (length key % 256) ∷ (key ++ rest)

unfoldable pub unframe : Bytes → Option (Bytes × Bytes)
unframe [] = none
unframe (key_len ∷ rest) =
    if leb key_len (length rest) then some (take key_len rest, drop key_len rest) else none

-- The address of the node that has the object and the request to it; none is sent where the place is
-- not known.
unfoldable pub send_data_req_base : ℕ → Bytes → CommHelper → Option (Address × Bytes)
unfolding get_key_address endpoint
send_data_req_base tid key h =
    if is_empty (get_key_address key h)
    then none
    else some (get_key_address key h, framed key (endpoint h.ip (tid + data_access_client_port)))

-- `get_func` is the object of a key, none or an empty one where it is not here. The outer `none` is
-- the crash: of a message of 2^32 bytes or more, whose length is an unsigned, the code writes past the
-- end.
unfoldable pub handle_data_request : (Bytes → Bytes) → Bytes → Option (Option (Address × Bytes))
unfolding unframe
handle_data_request get_func request = unframe request >>= λ r.
    if is_empty (get_func r.0)
    then some none
    else if ltb (length r.0 + length (get_func r.0) + 1) 4294967296
    then some (some (r.1, ((length r.0 % 256) ∷ r.0) ++ get_func r.0))
    else none

-- The message for the scheduler, and the object that copy_func puts into shared memory.
unfoldable pub handle_data_response : Bytes → Option (RecvMsg × Bytes)
unfolding unframe
handle_data_response response =
    unframe response >>= λ r. some (data_resp r.0 (length r.1 % 4294967296), r.1)

pub unframe-framed :
    (key rest : Bytes) → length key < 256 → unframe (framed key rest) ≡ some (key, rest)
unfolding unframe
unframe-framed key rest small =
    let e : length key % 256 ≡ length key = omega (arith, small) in
    rw (e, le→leb (length key) (length (key ++ rest)) (omega (arith, length-append key rest)))
      (rw (take-append_length key rest, drop-append_length key rest) refl)

abbrev IsServed : (Bytes → Bytes) → ℕ → Bytes → CommHelper → Bytes → Type 0
IsServed get_func tid key h request =
    (handle_data_request get_func request
      ≡ some (some (endpoint h.ip (tid + data_access_client_port), framed key (get_func key))))
    × (handle_data_response (framed key (get_func key))
        ≡ some (data_resp key (length (get_func key)), get_func key))

framed-IsServed :
    (get_func : Bytes → Bytes) (tid : ℕ) (key : Bytes) (h : CommHelper)
    → length key < 256
    → is_empty (get_func key) ≡ false
    → length key + length (get_func key) + 1 < 4294967296
    → IsServed get_func tid key h (framed key (endpoint h.ip (tid + data_access_client_port)))
unfolding handle_data_request handle_data_response
framed-IsServed get_func tid key h small full short =
    let e : length (get_func key) % 4294967296 ≡ length (get_func key) = omega (arith, short) in
    (
      rw
          (
            unframe-framed key (endpoint h.ip (tid + data_access_client_port)) small,
            full,
            lt→ltb (length key + length (get_func key) + 1) 4294967296 short,
          )
          refl,
      rw (unframe-framed key (get_func key) small, e) refl,
    )

-- Where the request is sent, the key has fewer than 256 bytes, the other node has an object under it,
-- and both have together fewer than 2^32 - 1 bytes: the node answers to the port of the thread that asked, and the
-- answer is received as the response for that key with the length of the object, and the object.
pub handle_data_request-send_data_req_base :
    (get_func : Bytes → Bytes) (tid : ℕ) (key : Bytes) (h : CommHelper) (to : Address)
    (request : Bytes)
    → length key < 256
    → is_empty (get_func key) ≡ false
    → length key + length (get_func key) + 1 < 4294967296
    → send_data_req_base tid key h ≡ some (to, request)
    → (handle_data_request get_func request
        ≡ some (some (endpoint h.ip (tid + data_access_client_port), framed key (get_func key))))
      × (handle_data_response (framed key (get_func key))
          ≡ some (data_resp key (length (get_func key)), get_func key))
unfolding send_data_req_base
handle_data_request-send_data_req_base get_func tid key h to request small full short sent =
    subst (Holds (λ r. IsServed get_func tid key h r.1)) sent (
      Holds-if (λ r. IsServed get_func tid key h r.1) (is_empty (get_key_address key h)) none _ tt
        (framed-IsServed get_func tid key h small full short))
