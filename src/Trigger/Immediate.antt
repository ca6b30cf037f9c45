-- ===== src/Trigger/Immediate.antt =====
-- trigger.hpp, class ImmediateTrigger: every object triggers the function.
use pheromone.Base.{Bytes, Session, List, [], ◌∷◌, none, some, bytes_eq}
use pheromone.Base.Maps.{get, put, erase}
use pheromone.Common.{BucketKey}
use pheromone.Trigger.Types.{TriggerAction, TriggerFunctionMetadata, StatusCache, session_key}

pub record ImmediateTrigger : Type 0 where
  pub session_status_cache : StatusCache

abbrev pub init : ImmediateTrigger
init = record { session_status_cache = [] }

unfoldable pub action_for_new_object :
    Bytes → ImmediateTrigger → BucketKey → ImmediateTrigger × List TriggerAction
action_for_new_object target t k = (
  record { session_status_cache = erase t.session_status_cache k.session },
  record { function = target; session_keys = session_key k ∷ [] } ∷ [],
)

unfoldable pub notify_source_func :
    ImmediateTrigger → Session → TriggerFunctionMetadata → ImmediateTrigger
notify_source_func t session meta = record {
  session_status_cache = put t.session_status_cache session meta;
}

unfoldable pub action_for_rerun : ImmediateTrigger → Session → List TriggerFunctionMetadata
action_for_rerun t session = elim (get t.session_status_cache session) [
  | some meta ↦ meta ∷ []
  | none ↦ []
]
