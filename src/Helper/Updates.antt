-- ===== src/Helper/Updates.antt =====
-- comm_helper.hpp, try_recv_msg: the messages by which a coordinator keeps the scheduler's maps up to
-- date. `now` is the time of the clock; the protocol buffer library is the parameter `w`.
use pheromone.Base.{
  ℕ, Bytes, Bucket, Session, List, [], ◌∷◌, ◌++◌, Bool, true, false, Option, none, some, bytes_eq,
  ◌==◌, nat_beq, if◌then◌else◌, ◌>>=◌, get_elem?, length,
}
use pheromone.Base.Maps.{Map, get, put, get_or, is_empty}
use pheromone.Base.Sets
use pheromone.Threads.{Thread}
use pheromone.Trigger.Types.{RerunMetadata}
use pheromone.Trigger.Dispatch.{Trigger, set_trigger_option, set_rerun_metadata, clear}
use pheromone.Trigger.Primitives.{Wires, gen_trigger_pointer}
use pheromone.Coordinator.Types.{
  UpdateCoordMsg, TriggerEntity, DataDependency, DependencyType, direct, RerunHint,
}
use pheromone.Scheduler.Types.{Scheduler, AppInfo, empty_app, TriggerPointer, RerunTriggerTimeout}
use pheromone.Scheduler.Schedule.{update_at}
use pheromone.Helper.Types.{CommHelper}

abbrev pub app_of : Bytes → Scheduler → AppInfo
app_of app_name s = get_or (get s.app_info_map app_name) empty_app

abbrev pub set_app : Bytes → AppInfo → Scheduler → Scheduler
set_app app_name app s = record s { app_info_map = put s.app_info_map app_name app }

unfoldable pub add_functions : Bytes → List Bytes → Scheduler → Scheduler
add_functions app_name [] s = s
add_functions app_name (func ∷ funcs) s =
    let app = app_of app_name s in
    let app' = record app { functions = Sets.insert app.functions func } in
    let s' = set_app app_name app' s in
    add_functions app_name funcs (record s' { func_app_map = put s'.func_app_map func app_name })

abbrev pub is_direct : DependencyType → Bool
is_direct direct = true
is_direct _ = false

-- A dependency with targets makes an entry for its source.
unfoldable pub add_targets : Bytes → Bytes → List Bytes → Scheduler → Scheduler
add_targets app_name src [] s = s
add_targets app_name src (tgt ∷ tgts) s =
    let app = app_of app_name s in
    let targets = Sets.insert (get_or (get app.direct_deps src) []) tgt in
    let app' = record app { direct_deps = put app.direct_deps src targets } in
    add_targets app_name src tgts (set_app app_name app' s)

-- Other dependencies than direct ones are skipped; one without a source is an index out of range.
unfoldable pub add_dependencies : Bytes → List DataDependency → Scheduler → Option Scheduler
unfolding add_targets
add_dependencies app_name [] s = some s
add_dependencies app_name (dep ∷ deps) s =
    if is_direct dep.type_of
    then (get_elem? dep.src_functions 0 >>= λ src.
        add_dependencies app_name deps (add_targets app_name src dep.tgt_functions s))
    else add_dependencies app_name deps s

abbrev pub rerun_metadata : List RerunHint → List RerunMetadata
rerun_metadata [] = []
rerun_metadata (hint ∷ hints) =
    record {
      source_func = hint.source_function;
      source_key = hint.source_key;
      timeout = hint.timeout;
    }
    ∷ rerun_metadata hints

unfoldable pub add_timeouts :
    TriggerPointer
    → List RerunHint
    → Map Bytes (List RerunTriggerTimeout)
    → Map Bytes (List RerunTriggerTimeout)
add_timeouts pointer [] m = m
add_timeouts pointer (hint ∷ hints) m =
    let old = get_or (get m hint.source_function) [] in
    let new = old ++ record { trigger_ptr = pointer; timeout = hint.timeout } ∷ [] in
    add_timeouts pointer hints (put m hint.source_function new)

-- The new trigger is the last of the scheduler's, and its pointer the last of the bucket's.
unfoldable pub push_trigger : Bucket → List RerunHint → Trigger → Scheduler → Scheduler
unfolding add_timeouts
push_trigger bucket hints t s =
    let pointer = length s.triggers in
    record s {
      triggers = s.triggers ++ set_rerun_metadata t (rerun_metadata hints) ∷ [];
      bucket_triggers_map =
          put s.bucket_triggers_map bucket
            (get_or (get s.bucket_triggers_map bucket) [] ++ pointer ∷ []);
      func_trigger_timeout_map = add_timeouts pointer hints s.func_trigger_timeout_map;
    }

-- A null pointer is left out.
unfoldable pub push_if : Bucket → ℕ → List RerunHint → Option Trigger → Scheduler → Scheduler
unfolding push_trigger
push_if bucket option hints none s = s
push_if bucket option hints (some t) s = push_trigger bucket hints (set_trigger_option t option) s

module _ (w : Wires) (now : ℕ) where
  -- An entity without a trigger's name only tells of the bucket.
  unfoldable pub add_entity :
      Thread → Bytes → TriggerEntity → CommHelper × Scheduler → CommHelper × Scheduler
  unfolding push_if
  add_entity coord app_name e (h, s) =
      let app = app_of app_name s in
      let s' = set_app app_name (record app { buckets = app.buckets ++ e.bucket_name ∷ [] }) s in
      let s'' = record s' { bucket_app_map = put s'.bucket_app_map e.bucket_name app_name } in
      (
        record h { bucket_coord_map = put h.bucket_coord_map e.bucket_name coord },
        if is_empty e.trigger_name
            then s''
            else push_if e.bucket_name e.trigger_option e.hints
                (gen_trigger_pointer w now e.primitive_type e.trigger_name e.primitive) s'',
      )

  unfoldable pub add_entities :
      Thread → Bytes → List TriggerEntity → CommHelper × Scheduler → CommHelper × Scheduler
  unfolding add_entity
  add_entities coord app_name [] r = r
  add_entities coord app_name (e ∷ es) r =
      add_entities coord app_name es (add_entity coord app_name e r)

  unfoldable pub add_update :
      UpdateCoordMsg → CommHelper × Scheduler → Option (CommHelper × Scheduler)
  unfolding add_functions add_dependencies add_entities
  add_update msg (h, s) =
      let coord : Thread = record { ip = msg.ip; tid = msg.thread_id } in
      let h' = record h { app_coord_map = put h.app_coord_map msg.app_name coord } in
      add_dependencies msg.app_name msg.dependencies (add_functions msg.app_name msg.functions s)
      >>= λ s'. some (add_entities coord msg.app_name msg.triggers (h', s'))

-- Every trigger of the name in the bucket is cleared for the session.
unfoldable pub clear_named :
    Bytes → Session → List TriggerPointer → List Trigger → Option (List Trigger)
unfolding update_at
clear_named name session [] ts = some ts
clear_named name session (pointer ∷ pointers) ts = do
  ts' ← update_at pointer (λ t. if t.trigger_name == name then clear t session else t) ts
  clear_named name session pointers ts'

unfoldable pub clear_update : List TriggerEntity → Scheduler → Option Scheduler
unfolding clear_named
clear_update [] s = some s
clear_update (e ∷ es) s = do
  ts ←
      clear_named e.trigger_name e.session (get_or (get s.bucket_triggers_map e.bucket_name) [])
        s.triggers
  clear_update es (record s { triggers = ts })

-- The pointers without the first to a trigger of the name. The loop runs past the end where there is
-- none.
unfoldable pub erase_named :
    Bytes → List Trigger → List TriggerPointer → Option (List TriggerPointer)
erase_named name ts [] = none
erase_named name ts (pointer ∷ pointers) =
    let more = erase_named name ts pointers >>= λ rest. some (pointer ∷ rest) in
    get_elem? ts pointer >>= λ t. (if t.trigger_name == name then some pointers else more)

unfoldable pub delete_update : List TriggerEntity → Scheduler → Option Scheduler
unfolding erase_named
delete_update [] s = some s
delete_update (e ∷ es) s = do
  pointers ←
      erase_named e.trigger_name s.triggers (get_or (get s.bucket_triggers_map e.bucket_name) [])
  delete_update es
      (record s { bucket_triggers_map = put s.bucket_triggers_map e.bucket_name pointers })

-- 0: add, 1: clear, 2: delete; other types are ignored.
unfoldable pub update_coord_msg :
    Wires → ℕ → UpdateCoordMsg → CommHelper × Scheduler → Option (CommHelper × Scheduler)
unfolding add_update clear_update delete_update
update_coord_msg w now msg (h, s) =
    if nat_beq msg.msg_type 0
    then add_update w now msg (h, s)
    else if nat_beq msg.msg_type 1
    then (clear_update msg.triggers s >>= λ s'. some (h, s'))
    else if nat_beq msg.msg_type 2
    then (delete_update msg.triggers s >>= λ s'. some (h, s'))
    else some (h, s)
