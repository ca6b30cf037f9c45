-- ===== src/Trigger/Tests.antt =====
-- The trigger classes on concrete objects.
use mathlib.Core.List.{Memᴰ}
use pheromone.Base.{
  ◌≤◌, ℕ, ◌+◌, ◌<◌, ◌≡◌, refl, Bytes, bytes, Key, Session, Bool, true, false, List, [], ◌∷◌, ◌++◌,
  map, some, arith, length, All, ◌&&◌, ◌||◌, ◌==◌, bytes_eq, if◌then◌else◌, inl, leb, ◌-◌, ◌*◌,
  Option,
}
use pheromone.Base.Sets.{contains, insert, covers}
use pheromone.Base.Maps.{get}
use pheromone.Common.{BucketKey}
use pheromone.Trigger.Types.{TriggerFunctionMetadata, session_key, all_keys, feed}
use pheromone.Trigger.ByBatchSize
use pheromone.Trigger.ByBatchSize.Batches.{IsBatch, feed-batches}
use pheromone.Trigger.BySet
use pheromone.Trigger.BySet.Prepared
use pheromone.Trigger.BySet.Prepared.{complete, action_for_new_object-fires}
use pheromone.Trigger.BySet.Rerun.{notify_source_func-rerun, action_for_rerun-clear}
use pheromone.Trigger.Redundant
use pheromone.Trigger.Redundant.Windows.{first_keys, feed-rounds}
use pheromone.Trigger.DynamicGroup
use pheromone.Trigger.DynamicGroup.Groups.{
  group_keys, arrived, control_keys, feed-groups, action_for_new_object-control, IsValidGroup,
  action_for_new_object-IsValidGroup,
}
use pheromone.Trigger.ByTime
use pheromone.Trigger.ByTime.Windows.{feed_at, feed_at-kept, feed_at-spaced}
use pheromone.Trigger.Dispatch
use pheromone.Trigger.Dispatch.{Trigger, make}
use pheromone.Trigger.Dispatch.Reruns.{action_for_rerun_lem}
use pheromone.Trigger.Primitives.{dump_pritimive, gen_trigger_pointer}
use pheromone.Trigger.Primitives.Samples.{sample_wires}
use pheromone.Trigger.Primitives.RoundTrip.{fresh_state, gen-dump}

abbrev target : Bytes
target = bytes "f"

abbrev object : Bytes → BucketKey
object key = record { bucket = bytes "b"; key = key; session = bytes "s" }

abbrev objects : List BucketKey
objects = object (bytes "k1") ∷ object (bytes "k2") ∷ object (bytes "k3") ∷ []

abbrev batches_of_two : ByBatchSize.ByBatchSizeTrigger
batches_of_two = ByBatchSize.init 2

feed-batches_example :
    (all_keys (feed (ByBatchSize.action_for_new_object target) batches_of_two objects).1
        ++ (feed (ByBatchSize.action_for_new_object target) batches_of_two objects).0.buffer
      ≡ [] ++ map session_key objects)
    × All
        (IsBatch (ByBatchSize.size_of_int 2))
        (feed (ByBatchSize.action_for_new_object target) batches_of_two objects).1
    × (length (feed (ByBatchSize.action_for_new_object target) batches_of_two objects).0.buffer
        < ByBatchSize.size_of_int 2)
feed-batches_example = feed-batches target batches_of_two objects (omega arith)

-- Two objects of three fire.
feed-rounds_example :
    feed (Redundant.action_for_new_object target) (Redundant.init 2 3) objects
    ≡ (Redundant.init 2 3, first_keys target (object (bytes "k1") ∷ object (bytes "k2") ∷ []) ∷ [])
feed-rounds_example =
    feed-rounds target 2 3 (omega arith)
      ((object (bytes "k1") ∷ object (bytes "k2") ∷ [], object (bytes "k3") ∷ []) ∷ [])
      (omega arith) ((refl, refl), tt)

abbrev sets : BySet.BySetTrigger
sets = BySet.init (bytes "k1" ∷ bytes "k2" ∷ [])

sets-IsValid : BySet.Prepared.IsValid sets
unfolding contains get
sets-IsValid = record { distinct = (refl, (refl, tt)); partial = λ s. (tt, tt, inl refl) }

action_for_new_object-IsValid_example :
    BySet.Prepared.IsValid (BySet.action_for_new_object target sets (object (bytes "k1"))).0
action_for_new_object-IsValid_example =
    BySet.Prepared.action_for_new_object-IsValid target sets (object (bytes "k1")) sets-IsValid

action_for_new_object-fires_example :
    ((BySet.action_for_new_object target sets (object (bytes "k1"))).1 ≡ (
      if complete target sets (object (bytes "k1")) sets-IsValid
      then record { function = target; session_keys = BySet.for_session (bytes "s") sets.key_set }
        ∷ []
      else []))
    × ((s : Session)
        → BySet.prepared (BySet.action_for_new_object target sets (object (bytes "k1"))).0 s ≡ (
            if bytes "s" == s
            then if complete target sets (object (bytes "k1")) sets-IsValid
              then []
              else if contains sets.key_set (bytes "k1")
              then insert (BySet.prepared sets s) (bytes "k1")
              else BySet.prepared sets s
            else BySet.prepared sets s))
    × ((BySet.action_for_new_object target sets (object (bytes "k1"))).0.key_set ≡ sets.key_set)
action_for_new_object-fires_example =
    action_for_new_object-fires target sets (object (bytes "k1")) sets-IsValid

-- Both keys of the set have arrived.
set_fires :
    (feed (BySet.action_for_new_object target) sets objects).1
    ≡ record {
      function = target;
      session_keys = BySet.for_session (bytes "s") (bytes "k1" ∷ bytes "k2" ∷ []);
    }
      ∷ []
unfolding feed BySet.action_for_new_object contains insert get pheromone.Base.Maps.put
set_fires = refl

abbrev meta : TriggerFunctionMetadata
meta = record { func_name = bytes "src"; func_args = []; arg_flag = 0 }

abbrev watched : BySet.BySetTrigger
watched = record sets { func_key_map = (bytes "src", bytes "k1") ∷ [] }

notify_source_func-rerun_example :
    Memᴰ meta
      (BySet.action_for_rerun (BySet.notify_source_func watched (bytes "s") meta) (bytes "s"))
unfolding get contains
notify_source_func-rerun_example =
    notify_source_func-rerun watched (bytes "s") meta (bytes "k1") refl refl

abbrev called : BySet.BySetTrigger
called = record watched { session_status_cache = (bytes "k1s", meta) ∷ [] }

action_for_rerun-clear_example :
    BySet.action_for_rerun (BySet.clear called (bytes "s")) (bytes "s")
    ≡ BySet.action_for_rerun called (bytes "s")
action_for_rerun-clear_example =
    action_for_rerun-clear called (bytes "s") (omega arith, (omega arith, tt))

abbrev groups : DynamicGroup.DynamicGroupTrigger
groups = DynamicGroup.init (bytes "ctrl:a" ∷ [])

abbrev data_objects : List BucketKey
data_objects = object (bytes "g1:x") ∷ object (bytes "g2:y") ∷ []

groups-IsValidGroup : IsValidGroup groups
unfolding contains
groups-IsValidGroup = record { group_distinct = (refl, tt); distinct = tt; subset = tt }

feed-groups_example :
    (contains
        (group_keys
          (feed (DynamicGroup.action_for_new_object target) groups data_objects).0
          (bytes "g1"))
        (bytes "g1:x")
      ≡ (contains (group_keys groups (bytes "g1")) (bytes "g1:x")
          || (arrived data_objects (bytes "g1:x")
              && DynamicGroup.group_of (bytes "g1:x") == bytes "g1")))
    × ((feed (DynamicGroup.action_for_new_object target) groups data_objects).1 ≡ [])
    × ((feed (DynamicGroup.action_for_new_object target) groups data_objects).0.cur_control_keys
        ≡ groups.cur_control_keys)
unfolding DynamicGroup.group_of
feed-groups_example =
    feed-groups target groups data_objects (bytes "g1") (bytes "g1:x") (refl, (refl, tt))

action_for_new_object-control_example :
    DynamicGroup.action_for_new_object target groups (object (bytes "ctrl:a")) ≡ (
      if covers groups.control_group (control_keys groups (bytes "ctrl:a"))
      then (
        DynamicGroup.init groups.control_group,
        map (DynamicGroup.group_action target (bytes "s")) groups.data_group_keys_map,
      )
      else (record groups { cur_control_keys = control_keys groups (bytes "ctrl:a") }, []))
unfolding DynamicGroup.group_of
action_for_new_object-control_example =
    action_for_new_object-control target groups (object (bytes "ctrl:a")) groups-IsValidGroup refl

action_for_new_object-IsValidGroup_example :
    IsValidGroup (DynamicGroup.action_for_new_object target groups (object (bytes "ctrl:a"))).0
action_for_new_object-IsValidGroup_example =
    action_for_new_object-IsValidGroup target groups (object (bytes "ctrl:a")) groups-IsValidGroup

abbrev timed : ByTime.ByTimeTrigger
timed = ByTime.init 0 5

abbrev timed_objects : List (ℕ × BucketKey)
timed_objects = (1, object (bytes "k1")) ∷ (9000000, object (bytes "k2")) ∷ []

feed_at-kept_example :
    all_keys (feed_at target timed timed_objects).1 ++ (feed_at target timed timed_objects).0.buffer
    ≡ [] ++ map (λ (r : ℕ × BucketKey). session_key r.1) timed_objects
feed_at-kept_example = feed_at-kept target timed timed_objects

feed_at-spaced_example : (5000000 + 0 ≤ 9000000) × (9000000 ≤ 9000001)
unfolding feed_at ByTime.action_for_new_object
feed_at-spaced_example =
    feed_at-spaced target timed timed_objects 9000001 (omega arith, (omega arith, omega arith))

abbrev batch_trigger : Trigger
batch_trigger = make target (bytes "t") (Dispatch.by_batch_size_state batches_of_two)

action_for_rerun_lem_example :
    (Dispatch.action_for_rerun
        (Dispatch.notify_source_func batch_trigger (bytes "s") meta)
        (bytes "s")
      ≡ (if bytes "s" == bytes "s"
          then meta ∷ []
          else Dispatch.action_for_rerun batch_trigger (bytes "s")))
    × (Dispatch.action_for_rerun
          (Dispatch.action_for_new_object 0 batch_trigger (object (bytes "k1"))).0
          (bytes "s")
        ≡ (if bytes "s" == bytes "s"
            then []
            else Dispatch.action_for_rerun batch_trigger (bytes "s")))
action_for_rerun_lem_example =
    action_for_rerun_lem 0 batch_trigger (bytes "s") (bytes "s") meta (object (bytes "k1")) tt

abbrev set_trigger : Trigger
set_trigger = make target (bytes "t") (Dispatch.by_set_state sets)

gen-dump_example :
    gen_trigger_pointer sample_wires 7
      (Dispatch.get_type set_trigger)
      (bytes "t")
      (dump_pritimive sample_wires set_trigger)
    ≡ some (make target (bytes "t") (fresh_state 7 set_trigger.state))
unfolding contains
gen-dump_example = gen-dump sample_wires 7 set_trigger (refl, (refl, tt))
