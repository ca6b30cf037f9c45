-- ===== src/Trigger/Dispatch/Reruns.antt =====
-- The reruns of the classes that keep one call for each session.
use pheromone.Base.{ℕ, Bytes, ◌≡◌, Session, [], ◌∷◌, bytes_eq, ◌==◌, if◌then◌else◌, arith}
use pheromone.Base.Maps.{get-put, get-erase}
use pheromone.Common.{BucketKey}
use pheromone.Trigger.Types.{TriggerFunctionMetadata}
use pheromone.Trigger.Immediate
use pheromone.Trigger.ByName
use pheromone.Trigger.ByBatchSize
use pheromone.Trigger.Dispatch.{
  Trigger, TriggerState, immediate_state, by_name_state, by_batch_size_state, by_set_state,
  dynamic_group_state, redundant_state, by_time_state, state_action, state_notify, state_rerun,
  notify_source_func, action_for_rerun, action_for_new_object,
}

-- ImmediateTrigger, ByNameTrigger and ByBatchSizeTrigger.
abbrev pub KeepsSessions : TriggerState → Type 0
KeepsSessions (immediate_state s) = Unit
KeepsSessions (by_name_state s) = Unit
KeepsSessions (by_batch_size_state s) = Unit
KeepsSessions _ = ⊥

rerun-notify :
    (s : TriggerState) (session other : Session) (meta : TriggerFunctionMetadata)
    → KeepsSessions s
    → state_rerun (state_notify s session meta) other
      ≡ (if session == other then meta ∷ [] else state_rerun s other)
unfolding state_rerun state_notify Immediate.notify_source_func Immediate.action_for_rerun
    ByName.notify_source_func ByName.action_for_rerun ByBatchSize.notify_source_func
    ByBatchSize.action_for_rerun
rerun-notify (immediate_state s) session other meta h =
    ground (arith, get-put s.session_status_cache session other meta)
rerun-notify (by_name_state s) session other meta h =
    ground (arith, get-put s.session_status_cache session other meta)
rerun-notify (by_batch_size_state s) session other meta h =
    ground (arith, get-put s.session_status_cache session other meta)
rerun-notify (by_set_state s) session other meta h = elim h [ ]
rerun-notify (dynamic_group_state s) session other meta h = elim h [ ]
rerun-notify (redundant_state s) session other meta h = elim h [ ]
rerun-notify (by_time_state s) session other meta h = elim h [ ]

rerun-action :
    (now : ℕ) (target : Bytes) (s : TriggerState) (k : BucketKey) (other : Session)
    → KeepsSessions s
    → state_rerun (state_action now target s k).0 other
      ≡ (if k.session == other then [] else state_rerun s other)
unfolding state_rerun state_action Immediate.action_for_new_object Immediate.action_for_rerun
    ByName.action_for_new_object ByName.action_for_rerun ByBatchSize.action_for_new_object
    ByBatchSize.action_for_rerun
rerun-action now target (immediate_state s) k other h =
    ground (arith, get-erase s.session_status_cache k.session other)
rerun-action now target (by_name_state s) k other h =
    ground (arith, get-erase s.session_status_cache k.session other)
rerun-action now target (by_batch_size_state s) k other h =
    ground (arith, get-erase s.session_status_cache k.session other)
rerun-action now target (by_set_state s) k other h = elim h [ ]
rerun-action now target (dynamic_group_state s) k other h = elim h [ ]
rerun-action now target (redundant_state s) k other h = elim h [ ]
rerun-action now target (by_time_state s) k other h = elim h [ ]

-- In the classes that keep one call for each session, the call of a source function that was noted
-- for a session is its only rerun, until an object arrives in the session: then it has none. The
-- reruns of another session stay as they are, both ways.
pub action_for_rerun_lem :
    (now : ℕ) (t : Trigger) (session other : Session) (meta : TriggerFunctionMetadata)
    (k : BucketKey)
    → KeepsSessions t.state
    → (action_for_rerun (notify_source_func t session meta) other
        ≡ (if session == other then meta ∷ [] else action_for_rerun t other))
      × (action_for_rerun (action_for_new_object now t k).0 other
          ≡ (if k.session == other then [] else action_for_rerun t other))
unfolding action_for_rerun notify_source_func action_for_new_object
action_for_rerun_lem now t session other meta k h = (
  unfold state_rerun state_notify in rerun-notify t.state session other meta h,
  unfold state_rerun state_action in rerun-action now t.target_function t.state k other h,
)
