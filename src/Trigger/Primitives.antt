-- ===== src/Trigger/Primitives.antt =====
-- trigger.hpp, dump_pritimive and gen_trigger_pointer, over the messages of operation.proto. The
-- protocol buffer library, which writes and reads the messages, is a parameter.
pub mod RoundTrip
pub mod Samples
use pheromone.Base.{ℕ, Bytes, Key, List, [], Option, some, none, ◌≡◌, bytes_eq}
use pheromone.Base.Sets.{insert_all}
use pheromone.Trigger.Types.{
  PrimitiveType, immediate, by_name, by_batch_size, by_set, dynamic_group, redundant, by_time,
  other,
}
use pheromone.Trigger.Immediate
use pheromone.Trigger.ByName
use pheromone.Trigger.ByBatchSize
use pheromone.Trigger.BySet
use pheromone.Trigger.DynamicGroup
use pheromone.Trigger.Redundant
use pheromone.Trigger.ByTime
use pheromone.Trigger.Dispatch.{
  Trigger, TriggerState, make, immediate_state, by_name_state, by_batch_size_state, by_set_state,
  dynamic_group_state, redundant_state, by_time_state,
}

pub record ImmediatePrimitive : Type 0 where
  pub function : Bytes

pub record ByNamePrimitive : Type 0 where
  pub function : Bytes
  pub key_name : Bytes

pub record ByBatchSizePrimitive : Type 0 where
  pub function : Bytes
  pub count : ℕ

pub record BySetPrimitive : Type 0 where
  pub function : Bytes
  pub key_set : List Bytes

pub record DynamicGroupPrimitive : Type 0 where
  pub function : Bytes
  pub control_group : List Bytes

pub record RedundantPrimitive : Type 0 where
  pub function : Bytes
  pub k : ℕ
  pub n : ℕ

pub record ByTimePrimitive : Type 0 where
  pub function : Bytes
  pub time_window : ℕ

-- SerializeToString and ParseFromString of one message type; what was written is read back.
pub record Wire (M : Type 0) : Type 0 where
  pub serialize : M → Bytes
  pub parse : Bytes → M
  pub parse-serialize : (m : M) → parse (serialize m) ≡ m

pub record Wires : Type 0 where
  pub immediate_wire : Wire ImmediatePrimitive
  pub by_name_wire : Wire ByNamePrimitive
  pub by_batch_size_wire : Wire ByBatchSizePrimitive
  pub by_set_wire : Wire BySetPrimitive
  pub dynamic_group_wire : Wire DynamicGroupPrimitive
  pub redundant_wire : Wire RedundantPrimitive
  pub by_time_wire : Wire ByTimePrimitive

module _ (w : Wires) where
  abbrev pub dump_immediate : Bytes → Immediate.ImmediateTrigger → Bytes
  dump_immediate f s = w.immediate_wire.serialize (record { function = f })

  abbrev pub dump_by_name : Bytes → ByName.ByNameTrigger → Bytes
  dump_by_name f s = w.by_name_wire.serialize (record { function = f; key_name = s.key_name })

  abbrev pub dump_by_batch_size : Bytes → ByBatchSize.ByBatchSizeTrigger → Bytes
  dump_by_batch_size f s = w.by_batch_size_wire.serialize (record { function = f; count = s.count })

  abbrev pub dump_by_set : Bytes → BySet.BySetTrigger → Bytes
  dump_by_set f s = w.by_set_wire.serialize (record { function = f; key_set = s.key_set })

  abbrev pub dump_dynamic_group : Bytes → DynamicGroup.DynamicGroupTrigger → Bytes
  dump_dynamic_group f s =
      w.dynamic_group_wire.serialize (record { function = f; control_group = s.control_group })

  abbrev pub dump_redundant : Bytes → Redundant.RedundantTrigger → Bytes
  dump_redundant f s = w.redundant_wire.serialize (record { function = f; k = s.k; n = s.n })

  abbrev pub dump_by_time : Bytes → ByTime.ByTimeTrigger → Bytes
  dump_by_time f s = w.by_time_wire.serialize (record { function = f; time_window = s.time_window })

  -- The virtual call.
  unfoldable pub dump_state : Bytes → TriggerState → Bytes
  dump_state f (immediate_state s) = dump_immediate f s
  dump_state f (by_name_state s) = dump_by_name f s
  dump_state f (by_batch_size_state s) = dump_by_batch_size f s
  dump_state f (by_set_state s) = dump_by_set f s
  dump_state f (dynamic_group_state s) = dump_dynamic_group f s
  dump_state f (redundant_state s) = dump_redundant f s
  dump_state f (by_time_state s) = dump_by_time f s

  unfoldable pub dump_pritimive : Trigger → Bytes
  unfolding dump_state
  dump_pritimive t = dump_state t.target_function t.state

  -- `now` is the time at which the trigger is made; `none` is the null pointer.
  unfoldable pub gen_trigger_pointer : ℕ → PrimitiveType → Bytes → Bytes → Option Trigger
  gen_trigger_pointer now immediate name serialized =
      let m = w.immediate_wire.parse serialized in
      some (make m.function name (immediate_state Immediate.init))
  gen_trigger_pointer now by_name name serialized =
      let m = w.by_name_wire.parse serialized in
      some (make m.function name (by_name_state (ByName.init m.key_name)))
  gen_trigger_pointer now by_batch_size name serialized =
      let m = w.by_batch_size_wire.parse serialized in
      some (make m.function name (by_batch_size_state (ByBatchSize.init m.count)))
  gen_trigger_pointer now by_set name serialized =
      let m = w.by_set_wire.parse serialized in
      some (make m.function name (by_set_state (BySet.init (insert_all [] m.key_set))))
  gen_trigger_pointer now dynamic_group name serialized =
      let m = w.dynamic_group_wire.parse serialized in
      some (
        make m.function name
          (dynamic_group_state (DynamicGroup.init (insert_all [] m.control_group))))
  gen_trigger_pointer now redundant name serialized =
      let m = w.redundant_wire.parse serialized in
      some (make m.function name (redundant_state (Redundant.init m.k m.n)))
  gen_trigger_pointer now by_time name serialized =
      let m = w.by_time_wire.parse serialized in
      some (make m.function name (by_time_state (ByTime.init now m.time_window)))
  gen_trigger_pointer now (other code) name serialized = none
