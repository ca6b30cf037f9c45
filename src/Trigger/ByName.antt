-- ===== src/Trigger/ByName.antt =====
-- trigger.hpp, class ByNameTrigger: an object with one name triggers the function.
use pheromone.Base.{Bytes, Key, Session, List, [], ◌∷◌, none, some, bytes_eq, ◌==◌, if◌then◌else◌}
use pheromone.Base.Maps.{get, put, erase}
use pheromone.Common.{BucketKey}
use pheromone.Trigger.Types.{TriggerAction, TriggerFunctionMetadata, StatusCache, session_key}

pub record ByNameTrigger : Type 0 where
  pub key_name : Key
  pub session_status_cache : StatusCache

abbrev pub init : Key → ByNameTrigger
init key_name = record { key_name = key_name; session_status_cache = [] }

unfoldable pub action_for_new_object :
    Bytes → ByNameTrigger → BucketKey → ByNameTrigger × List TriggerAction
action_for_new_object target t k = (
  record t { session_status_cache = erase t.session_status_cache k.session },
  if k.key == t.key_name
      then record { function = target; session_keys = session_key k ∷ [] } ∷ []
      else [],
)

unfoldable pub notify_source_func :
    ByNameTrigger → Session → TriggerFunctionMetadata → ByNameTrigger
notify_source_func t session meta = record t {
  session_status_cache = put t.session_status_cache session meta;
}

unfoldable pub action_for_rerun : ByNameTrigger → Session → List TriggerFunctionMetadata
action_for_rerun t session = elim (get t.session_status_cache session) [
  | some meta ↦ meta ∷ []
  | none ↦ []
]
