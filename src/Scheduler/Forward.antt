-- ===== src/Scheduler/Forward.antt =====
-- scheduler_server.cpp: forward_call_via_helper. The arguments of a call on keys come in threes:
-- bucket, key with session, and size. An index out of range or a failing stoi is a crash.
use pheromone.Base.{
  ℕ, ◌+◌, ◌%◌, Bytes, Address, Session, Bool, ◌&&◌, List, [], ◌∷◌, ◌++◌, Option, some, none, ltb,
  nat_beq, if◌then◌else◌, ◌>>=◌, bytes_eq,
}
use pheromone.Base.Maps.{Map, get, put, has, get_or}
use pheromone.Base.Runs.{Run, emit, given}
use pheromone.Common.{delimiter}
use pheromone.Common.Stoi.{stoi}
use pheromone.Scheduler.Types.{Scheduler, Settings, Effect, forward_func_call}

-- arg_flag > 0 for the bit pattern of an int
abbrev pub is_positive : ℕ → Bool
is_positive n = ltb 0 n && ltb n 2147483648

abbrev pub forward_data_packing_threshold : ℕ
forward_data_packing_threshold = 10240

unfoldable pub data_size : List Bytes → Option ℕ
data_size [] = some 0
data_size (bucket ∷ []) = none
data_size (bucket ∷ key ∷ []) = none
data_size (bucket ∷ key ∷ size ∷ rest) = do
  n ← stoi size
  total ← data_size rest
  some ((n + total) % 4294967296)

unfoldable pub total_data_size : List (List Bytes) → Option ℕ
unfolding data_size
total_data_size [] = some 0
total_data_size (args ∷ rest) = do
  n ← data_size args
  total ← total_data_size rest
  some ((n + total) % 4294967296)

-- m[key], which makes an entry 0 for a new key.
abbrev pub key_len : Map Bytes ℕ → Bytes → ℕ
key_len m key = get_or (get m key) 0

abbrev pub touch : Map Bytes ℕ → Bytes → Map Bytes ℕ
touch m key = if has m key then m else put m key 0

abbrev pub client_of : Session → Scheduler → Address
client_of session s = get_or (get s.session_client_addr_map session) []

module _ (st : Settings) where
  -- The values in place of the keys, and key_len_map after the look ups.
  unfoldable pub real_data : ℕ → List Bytes → Map Bytes ℕ → List Bytes × Map Bytes ℕ
  real_data flag (bucket ∷ key ∷ size ∷ rest) lens =
      let name = bucket ++ (delimiter ++ key) in
      let value = st.get_mem name (key_len lens name) in
      let (more, lens') = real_data flag rest (touch lens name) in
      (
        if nat_beq flag 1
            then value ∷ more
            else if nat_beq flag 2
            then key ∷ value ∷ more
            else more,
        lens',
      )
  real_data flag _ lens = ([], lens)

  unfoldable pub all_real_data :
      ℕ → List (List Bytes) → Map Bytes ℕ → List (List Bytes) × Map Bytes ℕ
  unfolding real_data
  all_real_data flag [] lens = ([], lens)
  all_real_data flag (args ∷ rest) lens =
      let (values, lens') = real_data flag args lens in
      let (more, lens'') = all_real_data flag rest lens' in (values ∷ more, lens'')

  -- helper->forward_func_call
  abbrev pub forward : Session → Bytes → List Bytes → List (List Bytes) → ℕ → Run Scheduler Effect
  forward session app_name names args arg_flag s =
      emit (forward_func_call (client_of session s) app_name names args arg_flag session) s

  -- Small arguments are sent as values, large ones by their keys.
  unfoldable pub pack :
      Session → Bytes → List Bytes → List (List Bytes) → ℕ → ℕ → Run Scheduler Effect
  unfolding all_real_data
  pack session app_name names args arg_flag total s =
      let (values, lens) = all_real_data arg_flag args s.key_len_map in
      if ltb total forward_data_packing_threshold
      then forward session app_name names values 0 (record s { key_len_map = lens })
      else forward session app_name names args arg_flag s

  unfoldable pub forward_call_via_helper :
      Session → Bytes → List Bytes → List (List Bytes) → ℕ → Run Scheduler Effect
  unfolding total_data_size pack
  forward_call_via_helper session app_name names args arg_flag =
      if is_positive arg_flag
      then given (total_data_size args) (pack session app_name names args arg_flag)
      else forward session app_name names args arg_flag
