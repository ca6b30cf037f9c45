-- ===== src/Trigger/Dispatch.antt =====
-- trigger.hpp, class Trigger and its virtual methods, and gen_trigger_pointer. The protocol buffer
-- library's serialisation of the primitive messages is a parameter.
pub mod Reruns
use pheromone.Base.{
  ℕ, ◌+◌, ◌%◌, Bytes, Key, Session, List, [], ◌∷◌, Option, some, none, ◌≡◌, bytes_eq,
}
use pheromone.Base.Sets.{insert_all}
use pheromone.Common.{BucketKey}
use pheromone.Trigger.Types.{
  TriggerAction, TriggerFunctionMetadata, RerunMetadata, PrimitiveType, immediate, by_name,
  by_batch_size, by_set, dynamic_group, redundant, by_time, other,
}
use pheromone.Trigger.Immediate
use pheromone.Trigger.ByName
use pheromone.Trigger.ByBatchSize
use pheromone.Trigger.BySet
use pheromone.Trigger.DynamicGroup
use pheromone.Trigger.Redundant
use pheromone.Trigger.ByTime

-- The object of a subclass.
pub data TriggerState : Type 0 where
  immediate_state : Immediate.ImmediateTrigger → TriggerState
  by_name_state : ByName.ByNameTrigger → TriggerState
  by_batch_size_state : ByBatchSize.ByBatchSizeTrigger → TriggerState
  by_set_state : BySet.BySetTrigger → TriggerState
  dynamic_group_state : DynamicGroup.DynamicGroupTrigger → TriggerState
  redundant_state : Redundant.RedundantTrigger → TriggerState
  by_time_state : ByTime.ByTimeTrigger → TriggerState

pub record Trigger : Type 0 where
  pub target_function : Bytes
  pub trigger_name : Bytes
  pub trigger_option : ℕ
  pub state : TriggerState

-- trigger_option_ starts at 0.
abbrev pub make : Bytes → Bytes → TriggerState → Trigger
make function name state = record {
  target_function = function;
  trigger_name = name;
  trigger_option = 0;
  state = state;
}

unfoldable pub set_trigger_option : Trigger → ℕ → Trigger
set_trigger_option t option = record t { trigger_option = option }

unfoldable pub state_type : TriggerState → PrimitiveType
state_type (immediate_state s) = immediate
state_type (by_name_state s) = by_name
state_type (by_batch_size_state s) = by_batch_size
state_type (by_set_state s) = by_set
state_type (dynamic_group_state s) = dynamic_group
state_type (redundant_state s) = redundant
state_type (by_time_state s) = by_time

unfoldable pub get_type : Trigger → PrimitiveType
unfolding state_type
get_type t = state_type t.state

abbrev with_state {ℓ} : {S : Type 0} {A : Type ℓ} → (S → TriggerState) → S × A → TriggerState × A
with_state wrap (s, a) = (wrap s, a)

unfoldable pub state_action :
    ℕ → Bytes → TriggerState → BucketKey → TriggerState × List TriggerAction
state_action now target (immediate_state s) k =
    with_state immediate_state (Immediate.action_for_new_object target s k)
state_action now target (by_name_state s) k =
    with_state by_name_state (ByName.action_for_new_object target s k)
state_action now target (by_batch_size_state s) k =
    with_state by_batch_size_state (ByBatchSize.action_for_new_object target s k)
state_action now target (by_set_state s) k =
    with_state by_set_state (BySet.action_for_new_object target s k)
state_action now target (dynamic_group_state s) k =
    with_state dynamic_group_state (DynamicGroup.action_for_new_object target s k)
state_action now target (redundant_state s) k =
    with_state redundant_state (Redundant.action_for_new_object target s k)
state_action now target (by_time_state s) k =
    with_state by_time_state (ByTime.action_for_new_object now target s k)

-- `now` is the time of the system clock.
unfoldable pub action_for_new_object : ℕ → Trigger → BucketKey → Trigger × List TriggerAction
unfolding state_action
action_for_new_object now t k =
    let (state, actions) = state_action now t.target_function t.state k in
    (record t { state = state }, actions)

unfoldable pub state_clear : TriggerState → Session → TriggerState
state_clear (immediate_state s) session = immediate_state s
state_clear (by_name_state s) session = by_name_state s
state_clear (by_batch_size_state s) session = by_batch_size_state (ByBatchSize.clear s)
state_clear (by_set_state s) session = by_set_state (BySet.clear s session)
state_clear (dynamic_group_state s) session = dynamic_group_state (DynamicGroup.clear s)
state_clear (redundant_state s) session = redundant_state (Redundant.clear s)
state_clear (by_time_state s) session = by_time_state (ByTime.clear s)

unfoldable pub clear : Trigger → Session → Trigger
unfolding state_clear
clear t session = record t { state = state_clear t.state session }

-- The base class ignores the call.
unfoldable pub state_notify : TriggerState → Session → TriggerFunctionMetadata → TriggerState
state_notify (immediate_state s) session meta =
    immediate_state (Immediate.notify_source_func s session meta)
state_notify (by_name_state s) session meta =
    by_name_state (ByName.notify_source_func s session meta)
state_notify (by_batch_size_state s) session meta =
    by_batch_size_state (ByBatchSize.notify_source_func s session meta)
state_notify (by_set_state s) session meta = by_set_state (BySet.notify_source_func s session meta)
state_notify s session meta = s

unfoldable pub notify_source_func : Trigger → Session → TriggerFunctionMetadata → Trigger
unfolding state_notify
notify_source_func t session meta = record t { state = state_notify t.state session meta }

unfoldable pub state_rerun : TriggerState → Session → List TriggerFunctionMetadata
state_rerun (immediate_state s) session = Immediate.action_for_rerun s session
state_rerun (by_name_state s) session = ByName.action_for_rerun s session
state_rerun (by_batch_size_state s) session = ByBatchSize.action_for_rerun s session
state_rerun (by_set_state s) session = BySet.action_for_rerun s session
state_rerun s session = []

unfoldable pub action_for_rerun : Trigger → Session → List TriggerFunctionMetadata
unfolding state_rerun
action_for_rerun t session = state_rerun t.state session

unfoldable pub state_rerun_metadata : TriggerState → List RerunMetadata → TriggerState
state_rerun_metadata (by_set_state s) metas = by_set_state (BySet.set_rerun_metadata s metas)
state_rerun_metadata s metas = s

unfoldable pub set_rerun_metadata : Trigger → List RerunMetadata → Trigger
unfolding state_rerun_metadata
set_rerun_metadata t metas = record t { state = state_rerun_metadata t.state metas }
