-- ===== src/Executor.antt =====
-- include/executor/function_lib.hpp: the library that a function calls, and update_status of
-- executor_server.cpp, with the reading of a function call. A message is sent with a NUL behind it; what is received ends with one.
pub mod Gets
pub mod Calls
mod Tests
use pheromone.Base.{
  ℕ, ◌+◌, ◌%◌, Bytes, Bucket, Key, Session, Address, Bool, List, [], ◌∷◌, ◌++◌, Option, some, none,
  ltb, nat_beq, if◌then◌else◌, ◌>>=◌, length, get_elem?, ◌&&◌, leb,
}
use pheromone.Common.{
  delimiter, delimiter_char, kvs_key_prefix, get_local_object_name, bucket_name_direct_invoc,
}
use pheromone.Common.Decimal.{to_string}
use pheromone.Common.Stoi.{stoi}
use pheromone.Common.Split.{split}
use pheromone.Scheduler.Executors.{c_string}

pub record UserLibrary : Type 0 where
  pub ip_number : Bytes
  pub chan_id : ℕ
  pub rid : ℕ
  pub object_id : ℕ
  pub function : Bytes
  pub session_id : Session
  pub persist_flag : ℕ
  pub size_of_args : List ℕ

-- The digits of the address, without its dots.
abbrev without_dots : Bytes → Bytes
without_dots [] = []
without_dots (c ∷ s) = let rest = without_dots s in if nat_beq c b'.' then rest else c ∷ rest

abbrev pub new_library : Address → ℕ → UserLibrary
new_library ip thread_id = record {
  ip_number = without_dots ip;
  chan_id = (thread_id + 1) % 256;
  rid = 0;
  object_id = 0;
  function = [];
  session_id = [];
  persist_flag = 0;
  size_of_args = [];
}

-- A function call has ended.
abbrev pub clear_session : UserLibrary → UserLibrary
clear_session u = record u { function = []; session_id = []; persist_flag = 0; size_of_args = [] }

abbrev pub add_arg_size : ℕ → UserLibrary → UserLibrary
add_arg_size size u = record u { size_of_args = u.size_of_args ++ size ∷ [] }

-- `none` is the -1 that is returned as a size_t.
abbrev pub get_size_of_arg : ℕ → UserLibrary → Option ℕ
get_size_of_arg arg_idx u = get_elem? u.size_of_args arg_idx

-- A uint8_t that is set back when it has come to 100.
unfoldable pub get_request_id : UserLibrary → ℕ × UserLibrary
get_request_id u =
    let next = (u.rid + 1) % 256 in
    let rid = if nat_beq (next % 100) 0 then 0 else next in (rid, record u { rid = rid })

abbrev pub get_object_id : UserLibrary → ℕ × UserLibrary
get_object_id u = (u.object_id, record u { object_id = (u.object_id + 1) % 4294967296 })

unfoldable pub gen_unique_key : UserLibrary → Bytes × UserLibrary
gen_unique_key u =
    let (object_id, u') = get_object_id u in
    (u.ip_number ++ (b'_' ∷ (to_string u.chan_id ++ (b'_' ∷ to_string object_id))), u')

-- What a receiver of send(str) reads.
abbrev pub sent : Bytes → Bytes
sent str = str ++ 0 ∷ []

abbrev pub update_status : ℕ → Bool → Bytes
update_status thread_id busy_flag = ((thread_id + 1) % 256) ∷ (if busy_flag then 6 else 7) ∷ []

-- The name of the object that is asked for.
abbrev pub name_of : Bucket → Key → Bool → UserLibrary → Bytes
name_of bucket key from_ephe_store u =
    if from_ephe_store
    then get_local_object_name bucket key u.session_id
    else kvs_key_prefix ++ (delimiter ++ key)

-- The request, with its id, and the name.
unfoldable pub get_request : Bytes → Bool → UserLibrary → (Bytes × ℕ) × UserLibrary
unfolding get_request_id
get_request obj_name from_ephe_store u =
    let (req_id, u') = get_request_id u in
    (
      (
        u.chan_id
            ∷ 1
            ∷ (if from_ephe_store then 1 else 2)
            ∷ req_id
            ∷ (length obj_name % 256)
            ∷ obj_name,
        req_id,
      ),
      u',
    )

-- An object of the shared memory that is opened: its name and length.
pub record EpheObject : Type 0 where
  pub obj_name : Bytes
  pub size : ℕ

-- The byte that is expected, and what follows it; another one is an error, for which a null pointer
-- is returned, and so is one from 128 on: it is read as a signed char, which is negative. The end of the message is out of range.
abbrev pub expect : ℕ → (Bytes → Option (Option EpheObject)) → Bytes → Option (Option EpheObject)
expect c k [] = none
expect c k (x ∷ rest) = if ltb x 128 && nat_beq x c then k rest else some none

-- The int as a size_t.
abbrev pub to_size : ℕ → ℕ
to_size n = if ltb n 2147483648 then n else n + 18446744069414584320

abbrev pub opened : Bytes → Bytes → Option (Option EpheObject)
opened obj_name size_text = c_string size_text >>= λ s.
    stoi s >>= λ size. some (some (record { obj_name = obj_name; size = to_size size }))

-- get_object with what has been received, `none` if nothing came in time. The outer `none` is a crash:
-- stoi throws, or an index is out of range.
unfoldable pub read_answer : ℕ → Bytes → Option Bytes → Option (Option EpheObject)
unfolding c_string
read_answer req_id obj_name none = some none
read_answer req_id obj_name (some str) = expect 3 (expect req_id (expect 1 (opened obj_name))) str

-- An object that was made, the function that it is for, and its bytes.
pub record OwnObject : Type 0 where
  pub obj_name : Bytes
  pub target_func : Bytes
  pub value : Bytes

-- The message of send_object; msgDataPackingThreshold is 1024.
unfoldable pub object_request : OwnObject → Bool → UserLibrary → Bytes × UserLibrary
unfolding get_request_id
object_request o output u =
    let (req_id, u') = get_request_id u in
    let packing = leb (length o.value) 1024 in
    (
      u.chan_id
          ∷ (if output then if nat_beq u.persist_flag 1 then 3 else 4 else 2)
          ∷ req_id
          ∷ (if packing then 1 else 2)
          ∷ (u.session_id
              ++ (delimiter
                  ++ (u.function
                      ++ (delimiter
                          ++ (o.target_func
                              ++ (delimiter
                                  ++ (o.obj_name
                                      ++ (delimiter
                                          ++ (if packing
                                              then o.value
                                              else to_string (length o.value)))))))))),
      u',
    )

-- A function call as run() of executor_server.cpp reads it.
pub record FunctionCall : Type 0 where
  pub arg_flag : ℕ
  pub persist_output_flag : ℕ
  pub session_id : Session
  pub func_name : Bytes
  pub func_args : List Bytes

-- func_with_args[0] is read twice, the second time when the session was taken off.
abbrev pub call_of : ℕ → ℕ → List Bytes → Option FunctionCall
call_of arg_flag persist (session ∷ func ∷ args) = some (record {
  arg_flag = (arg_flag + 255) % 256;
  persist_output_flag = persist;
  session_id = session;
  func_name = func;
  func_args = args;
})
call_of arg_flag persist _ = none

abbrev pub call_in : ℕ → ℕ → Bytes → Option (Option FunctionCall)
call_in arg_flag persist msg =
    call_of arg_flag persist (split msg delimiter_char) >>= λ call. some (some call)

-- The inner `none` is a message of another type, the outer one an index out of range.
unfoldable pub read_call : Bytes → Option (Option FunctionCall)
unfolding c_string
read_call (type ∷ arg_flag ∷ persist ∷ rest) =
    let read = c_string rest >>= call_in arg_flag persist in
    if nat_beq type 1 then read else some none
read_call _ = none
