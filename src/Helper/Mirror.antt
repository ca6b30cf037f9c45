-- ===== src/Helper/Mirror.antt =====
-- trigger_op_handler.cpp and comm_helper.hpp together: the scheduler gets the trigger that the
-- coordinator has added.
use mathlib.Core.Path.{subst}
use pheromone.Base.{
  ℕ, ◌≡◌, refl, ap, Bytes, Bucket, Address, List, [], ◌∷◌, ◌++◌, true, false, Option, none, some,
  Holds, bytes_eq, length, get_elem?, arith,
}
use pheromone.Base.Maps.{Map, get, put, has, get_or, is_empty, get-put_self}
use pheromone.Base.Sets
use pheromone.Base.Sets.{insert_all, Distinct-insert}
use pheromone.Trigger.Types.{
  PrimitiveType, immediate, by_name, by_batch_size, by_set, dynamic_group, redundant, by_time,
  other,
}
use pheromone.Trigger.Dispatch.{Trigger, get_type, set_trigger_option, set_rerun_metadata}
use pheromone.Trigger.Primitives.{Wires, gen_trigger_pointer, dump_pritimive}
use pheromone.Trigger.Primitives.RoundTrip.{insert_all_onto}
use pheromone.Threads.{Thread}
use pheromone.Coordinator.Types.{
  TriggerEntity, Coordinator, KvsError, TriggerOperationRequest, UpdateCoordMsg,
}
use pheromone.Coordinator.Triggers.{add, is_by_time}
use pheromone.Coordinator.Triggers.Changes.{triggers_of}
use pheromone.Scheduler.Types.{Scheduler}
use pheromone.Helper.Types.{CommHelper}
use pheromone.Helper.Updates.{
  update_coord_msg, add_update, add_functions, add_dependencies, add_entities, add_entity, push_if,
  push_trigger, rerun_metadata,
}

Distinct-insert_all : (s keys : List Bytes) → Sets.Distinct s → Sets.Distinct (insert_all s keys)
unfolding insert_all
Distinct-insert_all s [] d = d
Distinct-insert_all s (k ∷ keys) d =
    Distinct-insert_all (Sets.insert s k) keys (Distinct-insert s k d)

insert_all_again : (keys : List Bytes) → insert_all [] (insert_all [] keys) ≡ insert_all [] keys
insert_all_again keys = insert_all_onto [] (insert_all [] keys) (Distinct-insert_all [] keys tt)

-- A trigger made from a request is made again from its dump, unless it is a time trigger.
abbrev IsRemade : Wires → ℕ → PrimitiveType → Bytes → Trigger → Type 0
IsRemade w now type name t =
    (get_type t ≡ type) × (gen_trigger_pointer w now type name (dump_pritimive w t) ≡ some t)

gen_trigger_pointer-IsRemade :
    (w : Wires) (now now' : ℕ) (type : PrimitiveType) (name serialized : Bytes)
    → is_by_time type ≡ false
    → Holds (IsRemade w now' type name) (gen_trigger_pointer w now type name serialized)
unfolding gen_trigger_pointer dump_pritimive get_type
gen_trigger_pointer-IsRemade w now now' immediate name serialized h =
    (refl, rw w.immediate_wire.parse-serialize refl)
gen_trigger_pointer-IsRemade w now now' by_name name serialized h =
    (refl, rw w.by_name_wire.parse-serialize refl)
gen_trigger_pointer-IsRemade w now now' by_batch_size name serialized h =
    (refl, rw w.by_batch_size_wire.parse-serialize refl)
gen_trigger_pointer-IsRemade w now now' by_set name serialized h = (
  refl,
  rw (w.by_set_wire.parse-serialize, insert_all_again (w.by_set_wire.parse serialized).key_set)
      refl,
)
gen_trigger_pointer-IsRemade w now now' dynamic_group name serialized h = (
  refl,
  rw
      (
        w.dynamic_group_wire.parse-serialize,
        insert_all_again (w.dynamic_group_wire.parse serialized).control_group,
      )
      refl,
)
gen_trigger_pointer-IsRemade w now now' redundant name serialized h =
    (refl, rw w.redundant_wire.parse-serialize refl)
gen_trigger_pointer-IsRemade w now now' by_time name serialized h = absurd (ground (arith, h))
gen_trigger_pointer-IsRemade w now now' (other code) name serialized h = tt

-- The pointers of a bucket have a new one at the end, to the trigger.
abbrev pub HasPushed : Bucket → Trigger → Scheduler → Scheduler → Type 0
HasPushed bucket t s s' =
    (get_or (get s'.bucket_triggers_map bucket) []
      ≡ get_or (get s.bucket_triggers_map bucket) [] ++ length s.triggers ∷ [])
    × (get_elem? s'.triggers (length s.triggers) ≡ some t)

get_elem?-last : (ts : List Trigger) (t : Trigger) → get_elem? (ts ++ t ∷ []) (length ts) ≡ some t
get_elem?-last [] t = refl
get_elem?-last (x ∷ ts) t = get_elem?-last ts t

list-put {ℓ} :
    {A : Type ℓ} (m : Map Bucket (List A)) (bucket : Bucket) (xs : List A)
    → get_or (get (put m bucket xs) bucket) [] ≡ xs
list-put m bucket xs = ap (λ o. get_or o []) (get-put_self m bucket xs)

module _ (w : Wires) (now now' : ℕ) (ip : Address) (tid : ℕ) where
  -- Both sides have the new trigger, the scheduler with the metadata for reruns.
  abbrev IsMirrored :
      Coordinator
      → CommHelper
      → Scheduler
      → TriggerOperationRequest
      → Coordinator × KvsError × UpdateCoordMsg
      → Type 0
  IsMirrored c h s r (c', error, msg) =
      (t : Trigger) × (h' : CommHelper) × (s' : Scheduler) × (triggers_of c' r.bucket_name
        ≡ triggers_of c r.bucket_name ++ t ∷ [])
      × (update_coord_msg w now' msg (h, s) ≡ some (h', s'))
      × HasPushed r.bucket_name (set_rerun_metadata t (rerun_metadata r.hints)) s s'

  added-IsMirrored :
      (c : Coordinator) (h : CommHelper) (s : Scheduler) (r : TriggerOperationRequest)
      (o : Option Trigger)
      → has c.bucket_app_map r.bucket_name ≡ true
      → is_empty r.trigger_name ≡ false
      → is_by_time r.primitive_type ≡ false
      → gen_trigger_pointer w now r.primitive_type r.trigger_name r.primitive ≡ o
      → Holds (IsRemade w now' r.primitive_type r.trigger_name) o
      → Holds (IsMirrored c h s r) (add w ip tid now c r)
  unfolding add set_trigger_option update_coord_msg add_update add_functions add_dependencies
      add_entities add_entity push_if push_trigger get_type dump_pritimive
  added-IsMirrored c h s r none known named lasting e again = rw (known, e) tt
  added-IsMirrored c h s r (some t) known named lasting e again =
      let coord : Thread = record { ip = ip; tid = tid } in
      let entity : TriggerEntity = record {
        bucket_name = r.bucket_name;
        trigger_name = r.trigger_name;
        trigger_option = r.trigger_option;
        primitive_type = r.primitive_type;
        primitive = dump_pritimive w t;
        session = [];
        hints = r.hints;
      } in
      let told = record h { app_coord_map = put h.app_coord_map r.app_name coord } in
      let result = add_entity w now' coord r.app_name entity (told, s) in
      rw (known, e, again.0, lasting)
        (
          set_trigger_option t r.trigger_option,
          result.0,
          result.1,
          list-put c.bucket_triggers_map r.bucket_name _,
          refl,
          (
            rw (named, again.1) (list-put s.bucket_triggers_map r.bucket_name _),
            rw (named, again.1) (get_elem?-last s.triggers _),
          ),
        )

  -- A trigger with a name, and not a time trigger, is added to a bucket that the coordinator knows, and
  -- the coordinator does not crash. Then a scheduler that gets the coordinator's message, at any time
  -- and in any state, takes it, and has at the end of the bucket's triggers the same trigger as the
  -- coordinator, which has besides the metadata of the request's hints for reruns.
  pub update_coord_msg-add :
      (c c' : Coordinator) (h : CommHelper) (s : Scheduler) (r : TriggerOperationRequest)
      (error : KvsError) (msg : UpdateCoordMsg)
      → has c.bucket_app_map r.bucket_name ≡ true
      → is_empty r.trigger_name ≡ false
      → is_by_time r.primitive_type ≡ false
      → add w ip tid now c r ≡ some (c', error, msg)
      → (t : Trigger) × (h' : CommHelper) × (s' : Scheduler) × (triggers_of c' r.bucket_name
          ≡ triggers_of c r.bucket_name ++ t ∷ [])
        × (update_coord_msg w now' msg (h, s) ≡ some (h', s'))
        × HasPushed r.bucket_name (set_rerun_metadata t (rerun_metadata r.hints)) s s'
  update_coord_msg-add c c' h s r error msg known named lasting done =
      subst (Holds (IsMirrored c h s r)) done (
        added-IsMirrored c h s r _ known named lasting refl (
          gen_trigger_pointer-IsRemade w now now' r.primitive_type r.trigger_name r.primitive
            lasting))
