-- ===== src/Trigger/Primitives/RoundTrip.antt =====
-- A trigger's dump, from which the local schedulers make their copy of it.
use mathlib.Core.List.{append_assoc, append-nil}
use pheromone.Base.{
  ℕ, Bytes, Key, ◌≡◌, refl, sym, ◌∙◌, List, [], ◌∷◌, ◌++◌, false, some, arith, bytes_eq, ==_comm,
}
use pheromone.Base.Sets
use pheromone.Base.Sets.{contains, insert, insert_all, insert_new, contains-append}
use pheromone.Trigger.Immediate
use pheromone.Trigger.ByName
use pheromone.Trigger.ByBatchSize
use pheromone.Trigger.BySet
use pheromone.Trigger.DynamicGroup
use pheromone.Trigger.Redundant
use pheromone.Trigger.ByTime
use pheromone.Trigger.Dispatch.{
  Trigger, TriggerState, make, get_type, state_type, immediate_state, by_name_state,
  by_batch_size_state, by_set_state, dynamic_group_state, redundant_state, by_time_state,
}
use pheromone.Trigger.Primitives.{Wires, dump_state, dump_pritimive, gen_trigger_pointer}

-- The same configuration, with nothing arrived yet.
abbrev pub fresh_state : ℕ → TriggerState → TriggerState
fresh_state now (immediate_state s) = immediate_state Immediate.init
fresh_state now (by_name_state s) = by_name_state (ByName.init s.key_name)
fresh_state now (by_batch_size_state s) = by_batch_size_state (ByBatchSize.init s.count)
fresh_state now (by_set_state s) = by_set_state (BySet.init s.key_set)
fresh_state now (dynamic_group_state s) = dynamic_group_state (DynamicGroup.init s.control_group)
fresh_state now (redundant_state s) = redundant_state (Redundant.init s.k s.n)
fresh_state now (by_time_state s) = by_time_state (ByTime.init now s.time_window)

-- The set of a set trigger or a control group has no key twice.
abbrev pub HasSets : TriggerState → Type 0
HasSets (by_set_state s) = Sets.Distinct s.key_set
HasSets (dynamic_group_state s) = Sets.Distinct s.control_group
HasSets _ = Unit

fresh_key :
    (done : List Key) (k : Key) (keys : List Key)
    → Sets.Distinct (done ++ (k ∷ keys))
    → contains done k ≡ false
unfolding contains
fresh_key [] k keys h = refl
fresh_key (d ∷ done) k keys h =
    ground (arith, fresh_key done k keys h.1, contains-append done (k ∷ keys) d, ==_comm d k)

-- Inserting the elements of a set in turn gives the set.
pub insert_all_onto :
    (done keys : List Key) → Sets.Distinct (done ++ keys) → insert_all done keys ≡ done ++ keys
unfolding insert_all
insert_all_onto done [] h = sym (append-nil done)
insert_all_onto done (k ∷ keys) h = rw (insert_new done k (fresh_key done k keys h)) (
    insert_all_onto (done ++ k ∷ []) keys (rw (append_assoc done (k ∷ []) keys) h)
    ∙ append_assoc done (k ∷ []) keys)

gen_state :
    (w : Wires) (now : ℕ) (f name : Bytes) (s : TriggerState)
    → HasSets s
    → gen_trigger_pointer w now (state_type s) name (dump_state w f s)
      ≡ some (make f name (fresh_state now s))
unfolding gen_trigger_pointer state_type dump_state
gen_state w now f name (immediate_state s) h = rw w.immediate_wire.parse-serialize
gen_state w now f name (by_name_state s) h = rw w.by_name_wire.parse-serialize
gen_state w now f name (by_batch_size_state s) h = rw w.by_batch_size_wire.parse-serialize
gen_state w now f name (by_set_state s) h =
    rw (w.by_set_wire.parse-serialize, insert_all_onto [] s.key_set h)
gen_state w now f name (dynamic_group_state s) h =
    rw (w.dynamic_group_wire.parse-serialize, insert_all_onto [] s.control_group h)
gen_state w now f name (redundant_state s) h = rw w.redundant_wire.parse-serialize
gen_state w now f name (by_time_state s) h = rw w.by_time_wire.parse-serialize

-- A trigger made from another one's type, name and dump has its function, name and configuration,
-- with nothing arrived yet and option 0, whatever its class, if its sets have no key twice.
pub gen-dump :
    (w : Wires) (now : ℕ) (t : Trigger)
    → HasSets t.state
    → gen_trigger_pointer w now (get_type t) t.trigger_name (dump_pritimive w t)
      ≡ some (make t.target_function t.trigger_name (fresh_state now t.state))
unfolding dump_pritimive get_type
gen-dump w now t h = gen_state w now t.target_function t.trigger_name t.state h
