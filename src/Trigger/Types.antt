-- ===== src/Trigger/Types.antt =====
-- common/include/trigger.hpp: what the trigger classes share, and a stream of arriving objects.
pub mod Stream
use pheromone.Base.{ℕ, Bytes, Key, Session, List, [], ◌∷◌, ◌++◌}
use pheromone.Base.Maps.{Map}
use pheromone.Common.{BucketKey}

pub record TriggerAction : Type 0 where
  pub function : Bytes
  pub session_keys : List (Session × Key)

-- `arg_flag` is an int.
pub record TriggerFunctionMetadata : Type 0 where
  pub func_name : Bytes
  pub func_args : List Bytes
  pub arg_flag : ℕ

pub record RerunMetadata : Type 0 where
  pub source_func : Bytes
  pub source_key : Key
  pub timeout : ℕ

-- The enum of operation.proto. A proto3 enum is open: a message may hold any other number.
pub data PrimitiveType : Type 0 where
  immediate by_name by_batch_size by_set dynamic_group redundant by_time : PrimitiveType
  other : ℕ → PrimitiveType

-- session_status_cache_
abbrev pub StatusCache : Type 0
StatusCache = Map Bytes TriggerFunctionMetadata

-- std::make_pair(bucket_key.session_, bucket_key.key_)
abbrev pub session_key : BucketKey → Session × Key
session_key k = (k.session, k.key)

abbrev pub all_keys : List TriggerAction → List (Session × Key)
all_keys [] = []
all_keys (a ∷ actions) = a.session_keys ++ all_keys actions

-- Objects that arrive one after another, and all the actions they lead to.
module _ {S : Type 0} (arrive : S → BucketKey → S × List TriggerAction) where
  unfoldable pub feed : S → List BucketKey → S × List TriggerAction
  feed s [] = (s, [])
  feed s (k ∷ ks) =
      let (s', actions) = arrive s k in let (s'', later) = feed s' ks in (s'', actions ++ later)
