-- ===== src/Helper/Executors.antt =====
-- comm_helper.hpp: the updates of a coordinator leave the executors' states alone.
use pheromone.Base.{
  ℕ, ◌≡◌, refl, ◌∙◌, Bytes, List, [], ◌∷◌, Bool, true, false, Option, some, none, Holds, Holds-bind,
  Holds-trivial, Holds-both, Holds-if, bytes_eq, nat_beq, get_elem?, if◌then◌else◌,
}
use pheromone.Base.Maps.{is_empty}
use pheromone.Threads.{Thread}
use pheromone.Trigger.Dispatch.{Trigger}
use pheromone.Trigger.Primitives.{Wires}
use pheromone.Coordinator.Types.{UpdateCoordMsg, TriggerEntity, DataDependency, RerunHint}
use pheromone.Scheduler.Types.{Scheduler}
use pheromone.Helper.Types.{CommHelper}
use pheromone.Helper.Updates.{
  add_functions, add_targets, add_dependencies, push_if, push_trigger, add_entity, add_entities,
  add_update, clear_named, clear_update, erase_named, delete_update, update_coord_msg, is_direct,
}

abbrev SameExecutors : Scheduler → Scheduler → Type 0
SameExecutors s t = t.executor_status_map ≡ s.executor_status_map

add_functions-executors :
    (app_name : Bytes) (funcs : List Bytes) (s : Scheduler)
    → SameExecutors s (add_functions app_name funcs s)
unfolding add_functions
add_functions-executors app_name [] s = refl
add_functions-executors app_name (func ∷ funcs) s = add_functions-executors app_name funcs _

add_targets-executors :
    (app_name src : Bytes) (tgts : List Bytes) (s : Scheduler)
    → SameExecutors s (add_targets app_name src tgts s)
unfolding add_targets
add_targets-executors app_name src [] s = refl
add_targets-executors app_name src (tgt ∷ tgts) s = add_targets-executors app_name src tgts _

add_dependencies-executors :
    (app_name : Bytes) (deps : List DataDependency) (s : Scheduler)
    → Holds (SameExecutors s) (add_dependencies app_name deps s)
unfolding add_dependencies
add_dependencies-executors app_name [] s = refl
add_dependencies-executors app_name (dep ∷ deps) s =
    Holds-if (SameExecutors s) (is_direct dep.type_of) _ _
      (Holds-bind (λ x. Unit) (SameExecutors s) (get_elem? dep.src_functions 0) _ (Holds-trivial _)
        (λ src u.
          let s' = add_targets app_name src dep.tgt_functions s in
          Holds-both (λ x. Unit) (SameExecutors s') (SameExecutors s)
            (add_dependencies app_name deps s') (Holds-trivial _)
            (add_dependencies-executors app_name deps s')
            (λ t v same. same ∙ add_targets-executors app_name src dep.tgt_functions s)))
      (add_dependencies-executors app_name deps s)

push_if-executors :
    (bucket : Bytes) (option : ℕ) (hints : List RerunHint) (o : Option Trigger) (s : Scheduler)
    → SameExecutors s (push_if bucket option hints o s)
unfolding push_if push_trigger
push_if-executors bucket option hints none s = refl
push_if-executors bucket option hints (some t) s = refl

if-executors :
    (b : Bool) (x y s : Scheduler)
    → SameExecutors s x
    → SameExecutors s y
    → SameExecutors s (if b then x else y)
if-executors true x y s h k = h
if-executors false x y s h k = k

module _ (w : Wires) (now : ℕ) where
  add_entity-executors :
      (coord : Thread) (app_name : Bytes) (e : TriggerEntity) (r : CommHelper × Scheduler)
      → SameExecutors r.1 (add_entity w now coord app_name e r).1
  unfolding add_entity
  add_entity-executors coord app_name e (h, s) =
      if-executors (is_empty e.trigger_name) _ _ s refl
        (push_if-executors e.bucket_name e.trigger_option e.hints _ _)

  add_entities-executors :
      (coord : Thread) (app_name : Bytes) (es : List TriggerEntity) (r : CommHelper × Scheduler)
      → SameExecutors r.1 (add_entities w now coord app_name es r).1
  unfolding add_entities
  add_entities-executors coord app_name [] r = refl
  add_entities-executors coord app_name (e ∷ es) r =
      add_entities-executors coord app_name es (add_entity w now coord app_name e r)
      ∙ add_entity-executors coord app_name e r

clear_update-executors :
    (es : List TriggerEntity) (s : Scheduler) → Holds (SameExecutors s) (clear_update es s)
unfolding clear_update
clear_update-executors [] s = refl
clear_update-executors (e ∷ es) s =
    Holds-bind (λ x. Unit) (SameExecutors s) (clear_named e.trigger_name e.session _ s.triggers) _
      (Holds-trivial _) (λ ts u. clear_update-executors es (record s { triggers = ts }))

delete_update-executors :
    (es : List TriggerEntity) (s : Scheduler) → Holds (SameExecutors s) (delete_update es s)
unfolding delete_update
delete_update-executors [] s = refl
delete_update-executors (e ∷ es) s =
    Holds-bind (λ x. Unit) (SameExecutors s) (erase_named e.trigger_name s.triggers _) _
      (Holds-trivial _) (λ pointers u. delete_update-executors es _)

pub update_coord_msg-executors :
    (w : Wires) (now : ℕ) (msg : UpdateCoordMsg) (h : CommHelper) (s : Scheduler)
    → Holds
        (λ r. r.1.executor_status_map ≡ s.executor_status_map)
        (update_coord_msg w now msg (h, s))
unfolding update_coord_msg add_update
update_coord_msg-executors w now msg h s =
    let Q : CommHelper × Scheduler → Type 0 = λ r. SameExecutors s r.1 in
    let s' = add_functions msg.app_name msg.functions s in
    Holds-if Q (nat_beq msg.msg_type 0) _ _
      (Holds-bind (SameExecutors s') Q (add_dependencies msg.app_name msg.dependencies s') _
        (add_dependencies-executors msg.app_name msg.dependencies s')
        (λ t same.
          add_entities-executors w now _ msg.app_name msg.triggers _
          ∙ same
          ∙ add_functions-executors msg.app_name msg.functions s))
      (Holds-if Q (nat_beq msg.msg_type 1) _ _
        (Holds-bind (SameExecutors s) Q (clear_update msg.triggers s) _
          (clear_update-executors msg.triggers s) (λ t same. same))
        (Holds-if Q (nat_beq msg.msg_type 2) _ _
          (Holds-bind (SameExecutors s) Q (delete_update msg.triggers s) _
            (delete_update-executors msg.triggers s) (λ t same. same))
          refl))
