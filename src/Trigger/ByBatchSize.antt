-- ===== src/Trigger/ByBatchSize.antt =====
-- trigger.hpp, class ByBatchSizeTrigger: every `count` objects trigger the function once.
pub mod Batches
use pheromone.Base.{
  ℕ, ◌+◌, ◌-◌, ◌^◌, Bytes, Key, Session, List, [], ◌∷◌, ◌++◌, Option, none, some, bytes_eq, ltb,
  leb, length, if◌then◌else◌,
}
use pheromone.Base.Maps.{get, put, erase}
use pheromone.Common.{BucketKey}
use pheromone.Trigger.Types.{TriggerAction, TriggerFunctionMetadata, StatusCache, session_key}

-- `count` is the bit pattern of the int count_.
pub record ByBatchSizeTrigger : Type 0 where
  pub count : ℕ
  pub buffer : List (Session × Key)
  pub session_status_cache : StatusCache

abbrev pub init : ℕ → ByBatchSizeTrigger
init count = record { count = count; buffer = []; session_status_cache = [] }

-- An int compared with a size_t is converted to 64 bits with its sign, and read as unsigned.
abbrev pub size_of_int : ℕ → ℕ
size_of_int c = if ltb c 2147483648 then c else c + 18446744069414584320

unfoldable pub action_for_new_object :
    Bytes → ByBatchSizeTrigger → BucketKey → ByBatchSizeTrigger × List TriggerAction
action_for_new_object target t k =
    let buffer = t.buffer ++ session_key k ∷ [] in
    let cache = erase t.session_status_cache k.session in
    if leb (size_of_int t.count) (length buffer)
    then (
      record { count = t.count; buffer = []; session_status_cache = cache },
      record { function = target; session_keys = buffer } ∷ [],
    )
    else (record { count = t.count; buffer = buffer; session_status_cache = cache }, [])

unfoldable pub notify_source_func :
    ByBatchSizeTrigger → Session → TriggerFunctionMetadata → ByBatchSizeTrigger
notify_source_func t session meta = record t {
  session_status_cache = put t.session_status_cache session meta;
}

unfoldable pub action_for_rerun : ByBatchSizeTrigger → Session → List TriggerFunctionMetadata
action_for_rerun t session = elim (get t.session_status_cache session) [
  | some meta ↦ meta ∷ []
  | none ↦ []
]

unfoldable pub clear : ByBatchSizeTrigger → ByBatchSizeTrigger
clear t = record t { buffer = []; session_status_cache = [] }
