-- ===== src/Coordinator/Notify/Arguments.antt =====
-- notify_handler.cpp: the arguments of a call. Where all objects came with their values, one
-- argument holds the values; otherwise there is one for each object, with its name and where it is.
use pheromone.Base.{
  ℕ, Bytes, Address, Bucket, Key, Session, List, [], ◌∷◌, Option, none, some, ◌>>=◌, bytes_eq,
  get_elem?,
}
use pheromone.Base.Sets
use pheromone.Base.Maps.{Map, get, get_or}
use pheromone.Common.{get_local_object_name, delimiter_char}
use pheromone.Common.Split.{implode}
use pheromone.Common.Addresses.{ip_of_address}
use pheromone.Coordinator.Types.{Argument}

-- val_to_batch; `none` if a value is missing.
unfoldable pub values_of : Map Bytes Bytes → Bucket → List (Session × Key) → Option (List Bytes)
values_of values bucket [] = some []
values_of values bucket ((session, key) ∷ keys) = do
  value ← get values (get_local_object_name bucket key session)
  rest ← values_of values bucket keys
  some (value ∷ rest)

-- The arguments and data_node; `none` is a crash.
unfoldable pub by_name :
    Map Key (List Address)
    → Bucket
    → ℕ
    → List (Session × Key)
    → Option (List Argument × List Address)
by_name addresses bucket arg_flag [] = some ([], [])
by_name addresses bucket arg_flag ((session, key) ∷ keys) = do
  address ← get_elem? (get_or (get addresses key) []) 0
  ip ← ip_of_address address
  (arguments, nodes) ← by_name addresses bucket arg_flag keys
  some (
    record {
      body = get_local_object_name bucket key session;
      arg_flag = arg_flag;
      data_address = address;
    }
        ∷ arguments,
    Sets.insert nodes ip,
  )

abbrev pub batched : List Bytes → Argument
batched values = record { body = implode delimiter_char values; arg_flag = 0; data_address = [] }

unfoldable pub arguments_for :
    Map Bytes Bytes
    → Map Key (List Address)
    → Bucket
    → ℕ
    → List (Session × Key)
    → Option (List Argument × List Address)
unfolding values_of by_name
arguments_for values addresses bucket arg_flag keys = elim (values_of values bucket keys) [
  | some batch ↦ some (batched batch ∷ [], [])
  | none ↦ by_name addresses bucket arg_flag keys
]
