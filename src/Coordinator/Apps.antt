-- ===== src/Coordinator/Apps.antt =====
-- src/coordinator/app_register_handler.cpp.
use pheromone.Base.{
  ℕ, Bytes, bytes, Bucket, Address, List, [], ◌∷◌, ◌++◌, map, Option, none, some, ◌>>=◌, bytes_eq,
  get_elem?, if◌then◌else◌,
}
use pheromone.Base.Sets
use pheromone.Base.Maps.{get, put, get_or}
use pheromone.Common.Split.{split}
use pheromone.Common.Stoi.{stoi}
use pheromone.Trigger.BySet
use pheromone.Trigger.Redundant
use pheromone.Trigger.ByTime
use pheromone.Trigger.Dispatch.{
  Trigger, make, by_set_state, redundant_state, by_time_state, get_type,
}
use pheromone.Trigger.Primitives.{Wires, dump_pritimive}
use pheromone.Coordinator.Types.{
  Coordinator, DependencyType, direct, many_to_one, k_out_of_n, periodic, unknown_dependency,
  DataDependency, AppRegistration, TriggerEntity, UpdateCoordMsg, Send,
}
use pheromone.Coordinator.Triggers.{empty_entity, empty_update, to_nodes, is_by_time}

-- The bucket and the trigger that a dependency of the second function stands for.
abbrev pub bucket_of : Bytes → Bucket
bucket_of tgt_function = bytes "b_" ++ tgt_function

-- { "k_" + func }, as a set
abbrev pub key_names : List Bytes → List Bytes
key_names funcs = Sets.insert_all [] (map (λ func. bytes "k_" ++ func) funcs)

-- The trigger of a dependency that is not direct; `none` is an exception or a read out of range,
-- and a dependency of no known type has none.
unfoldable pub dependency_trigger :
    ℕ → DependencyType → Bytes → DataDependency → Option (Option Trigger)
unfolding stoi split
dependency_trigger now direct tgt dep = some none
dependency_trigger now many_to_one tgt dep = some (
    some (make tgt (bytes "t_1_" ++ tgt) (by_set_state (BySet.init (key_names dep.src_functions)))))
dependency_trigger now k_out_of_n tgt dep = do
  let metadata = split dep.description b','
  first ← get_elem? metadata 0
  k ← stoi first
  second ← get_elem? metadata 1
  n ← stoi second
  some (some (make tgt (bytes "t_2_" ++ tgt) (redundant_state (Redundant.init k n))))
dependency_trigger now periodic tgt dep = do
  time_window ← stoi dep.description
  some (some (make tgt (bytes "t_3_" ++ tgt) (by_time_state (ByTime.init now time_window))))
dependency_trigger now (unknown_dependency code) tgt dep = some none

-- Registers the bucket of a target function for an app.
unfoldable pub register_bucket : Bytes → Bucket → Coordinator → Coordinator
register_bucket app bucket c = record c {
  app_buckets_map =
      put c.app_buckets_map app (Sets.insert (get_or (get c.app_buckets_map app) []) bucket);
  bucket_app_map = put c.bucket_app_map bucket app;
}

unfoldable pub push_trigger : Bucket → Option Trigger → Coordinator → Coordinator
push_trigger bucket none c = c
push_trigger bucket (some t) c = record c {
  bucket_triggers_map =
      put c.bucket_triggers_map bucket (get_or (get c.bucket_triggers_map bucket) [] ++ t ∷ []);
}

module _ (w : Wires) where
  -- A time trigger's entity holds the bucket alone.
  unfoldable pub entity_for : Bucket → Option Trigger → TriggerEntity
  entity_for bucket none = record empty_entity { bucket_name = bucket }
  entity_for bucket (some t) =
      if is_by_time (get_type t)
      then record empty_entity { bucket_name = bucket }
      else record empty_entity {
        bucket_name = bucket;
        trigger_name = t.trigger_name;
        trigger_option = t.trigger_option;
        primitive_type = get_type t;
        primitive = dump_pritimive w t;
      }

  -- The bucket and the trigger of a dependency that is not direct.
  unfoldable pub register_bucket_dependency :
      ℕ
      → Bytes
      → Coordinator × UpdateCoordMsg
      → DependencyType
      → DataDependency
      → Option (Coordinator × UpdateCoordMsg)
  unfolding dependency_trigger register_bucket push_trigger entity_for
  register_bucket_dependency now app (c, msg) type_of dep = do
    tgt ← get_elem? dep.tgt_functions 0
    trigger ← dependency_trigger now type_of tgt dep
    let bucket = bucket_of tgt
    some (
      push_trigger bucket trigger (register_bucket app bucket c),
      record msg { triggers = msg.triggers ++ entity_for bucket trigger ∷ [] },
    )

  -- One dependency: a direct one is passed on to the nodes, any other makes a bucket and a trigger.
  unfoldable pub register_dependency :
      ℕ
      → Bytes
      → Coordinator × UpdateCoordMsg
      → DataDependency
      → Option (Coordinator × UpdateCoordMsg)
  unfolding register_bucket_dependency
  register_dependency now app (c, msg) dep = elim dep.type_of [
    | direct ↦ some (c, record msg { dependencies = msg.dependencies ++ dep ∷ [] })
    | other_type ↦ register_bucket_dependency now app (c, msg) other_type dep
  ]

  unfoldable pub register_all :
      ℕ
      → Bytes
      → Coordinator × UpdateCoordMsg
      → List DataDependency
      → Option (Coordinator × UpdateCoordMsg)
  unfolding register_dependency
  register_all now app s [] = some s
  register_all now app s (dep ∷ deps) = do
    s' ← register_dependency now app s dep
    register_all now app s' deps

  unfoldable pub app_register_handler :
      Address → ℕ → ℕ → Coordinator → AppRegistration → Option (Coordinator × List Send)
  unfolding register_all to_nodes
  app_register_handler private_ip thread_id now c regist = do
    (c', msg) ←
        register_all now regist.app_name
          (
            c,
            record empty_update {
              ip = private_ip;
              thread_id = thread_id;
              app_name = regist.app_name;
              functions = regist.functions;
            },
          )
          regist.dependencies
    some (c', to_nodes msg c'.node_status_map)
