-- ===== src/Scheduler/Executors.antt =====
-- scheduler_server.cpp, run(): the messages of the executors. An index out of range is a crash.
use pheromone.Base.{
  ℕ, ◌+◌, ◌%◌, Bytes, ◌&&◌, [], ◌∷◌, Option, some, none, nat_beq, leb, if◌then◌else◌, ◌>>=◌,
  bytes_eq, nat_eq, get_elem?, length, take,
}
use pheromone.Base.Maps.{get, put, get_or}
use pheromone.Base.Runs.{Run, skip, emit, modify, given, ◌▷◌}
use pheromone.Common.{delimiter_char}
use pheromone.Common.Split.{split}
use pheromone.Common.Decimal.{to_string}
use pheromone.Scheduler.Types.{
  Scheduler, Settings, Effect, send_data_req, get_kvs_async, empty, available, await, busy,
  ExecutorStatus,
}
use pheromone.Scheduler.Schedule.{send_to}
use pheromone.Scheduler.Objects.{await_object, response, send_object}

-- What comes before the first NUL; without one the code reads on behind the message.
unfoldable pub c_string : Bytes → Option Bytes
c_string [] = none
c_string (c ∷ s) = if nat_beq c 0 then some [] else (c_string s >>= λ rest. some (c ∷ rest))

-- string(str, n)
abbrev pub text_of : ℕ → Bytes → Option Bytes
text_of n s = if leb n (length s) then some (take n s) else none

-- An executor that has not run a function is empty.
abbrev pub freed : ExecutorStatus → ExecutorStatus
freed empty = empty
freed await = empty
freed _ = available

-- The busy and the available flag.
unfoldable pub busy_flag : ℕ → Scheduler → Scheduler
busy_flag id s = record s { executor_status_map = put s.executor_status_map id busy }

unfoldable pub available_flag : ℕ → Scheduler → Scheduler
available_flag id s = record s {
  executor_status_map =
      put s.executor_status_map id (freed (get_or (get s.executor_status_map id) empty));
}

module _ (st : Settings) (now : ℕ) where
  -- A get request to the ephemeral store, for an object with a length, or for one that has to come
  -- from another node.
  unfoldable pub on_local_get : ℕ → ℕ → Bytes → Option ℕ → Run Scheduler Effect
  unfolding send_to
  on_local_get id req_id key (some size) = send_to st id (response req_id (to_string size))
  on_local_get id req_id key none =
      emit (send_data_req key)
      ▷ modify (await_object key (record { executor_id = id; req_id = req_id }))

  unfoldable pub on_kvs_get : ℕ → ℕ → Bytes → Run Scheduler Effect
  on_kvs_get id req_id key = given (get_elem? (split key delimiter_char) 1) (λ kvs_key.
      emit (get_kvs_async kvs_key)
      ▷ modify (await_object key (record { executor_id = id; req_id = req_id })))

  -- A get request: from the ephemeral store if `source` is 1, else from the key-value store.
  unfoldable pub on_get : ℕ → ℕ → ℕ → Bytes → Run Scheduler Effect
  unfolding on_local_get on_kvs_get
  on_get id source req_id key s =
      (if nat_beq source 1
          then on_local_get id req_id key (get s.key_len_map key)
          else on_kvs_get id req_id key)
        s

  unfoldable pub get_message : ℕ → Bytes → Run Scheduler Effect
  unfolding on_get
  get_message id (source ∷ req_id ∷ len ∷ rest) = given (text_of len rest) (on_get id source req_id)
  get_message id _ = λ s. none

  unfoldable pub object_message : ℕ → ℕ → Bytes → Run Scheduler Effect
  unfolding c_string send_object
  object_message id type (req_id ∷ packing ∷ rest) =
      given (c_string rest) (send_object st now id type req_id packing)
  object_message id type _ = λ s. none

  -- A message in the shared channel: the executor, the type, and what the type needs.
  unfoldable pub executor_message : Bytes → Run Scheduler Effect
  unfolding get_message object_message busy_flag available_flag
  executor_message (address ∷ type ∷ rest) =
      let id = (address + 255) % 256 in
      if nat_beq type 1
      then get_message id rest
      else if leb 2 type && leb type 4
      then object_message id type rest
      else if nat_beq type 6
      then modify (busy_flag id)
      else if nat_beq type 7
      then modify (available_flag id)
      else skip
  executor_message _ = λ s. none
