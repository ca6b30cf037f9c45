-- ===== src/Trigger/BySet.antt =====
-- trigger.hpp, class BySetTrigger: the function is triggered for a session once an object of every
-- key of the set has arrived in it.
pub mod Prepared
pub mod Rerun
use pheromone.Base.{
  ℕ, Bytes, Key, Session, Bool, List, [], ◌∷◌, ◌++◌, map, Option, none, some, bytes_eq, nat_beq,
  length, if◌then◌else◌,
}
use pheromone.Base.Sets.{contains, insert}
use pheromone.Base.Maps.{Map, get, put, erase, get_or, is_empty}
use pheromone.Common.{BucketKey}
use pheromone.Trigger.Types.{TriggerAction, TriggerFunctionMetadata, RerunMetadata, StatusCache}

pub record BySetTrigger : Type 0 where
  pub key_set : List Key
  pub session_prepared_keys_map : Map Session (List Key)
  pub func_key_map : Map Bytes Key
  pub session_status_cache : StatusCache

abbrev pub init : List Key → BySetTrigger
init key_set = record {
  key_set = key_set;
  session_prepared_keys_map = [];
  func_key_map = [];
  session_status_cache = [];
}

-- session_prepared_keys_map_[session]
abbrev pub prepared : BySetTrigger → Session → List Key
prepared t session = get_or (get t.session_prepared_keys_map session) []

abbrev pub for_session : Session → List Key → List (Session × Key)
for_session session = map (λ key. (session, key))

unfoldable pub action_for_new_object :
    Bytes → BySetTrigger → BucketKey → BySetTrigger × List TriggerAction
action_for_new_object target t k =
    let keys = insert (prepared t k.session) k.key in
    let cache = erase t.session_status_cache (k.key ++ k.session) in
    if contains t.key_set k.key
    then if nat_beq (length keys) (length t.key_set)
      then (
        record t {
          session_prepared_keys_map = erase t.session_prepared_keys_map k.session;
          session_status_cache = cache;
        },
        record { function = target; session_keys = for_session k.session t.key_set } ∷ [],
      )
      else (
        record t {
          session_prepared_keys_map = put t.session_prepared_keys_map k.session keys;
          session_status_cache = cache;
        },
        [],
      )
    else (t, [])

-- func_key_map_[func_name] makes an entry with the empty key for a function that it does not know.
unfoldable pub notify_source_func : BySetTrigger → Session → TriggerFunctionMetadata → BySetTrigger
notify_source_func t session meta =
    let key = get_or (get t.func_key_map meta.func_name) [] in
    if is_empty t.func_key_map then t else record t {
      func_key_map = put t.func_key_map meta.func_name key;
      session_status_cache = put t.session_status_cache (key ++ session) meta;
    }

-- The calls kept for the keys of a list, in its order.
unfoldable pub rerun_calls : StatusCache → Session → List Key → List TriggerFunctionMetadata
rerun_calls cache session [] = []
rerun_calls cache session (key ∷ keys) =
    let rest = rerun_calls cache session keys in
    elim (get cache (key ++ session)) [ some meta ↦ meta ∷ rest | none ↦ rest ]

unfoldable pub action_for_rerun : BySetTrigger → Session → List TriggerFunctionMetadata
unfolding rerun_calls
action_for_rerun t session =
    if is_empty t.func_key_map then [] else rerun_calls t.session_status_cache session t.key_set

unfoldable pub add_rerun_metadata : Map Bytes Key → List RerunMetadata → Map Bytes Key
add_rerun_metadata m [] = m
add_rerun_metadata m (meta ∷ metas) =
    add_rerun_metadata (put m meta.source_func meta.source_key) metas

unfoldable pub set_rerun_metadata : BySetTrigger → List RerunMetadata → BySetTrigger
unfolding add_rerun_metadata
set_rerun_metadata t metas = record t { func_key_map = add_rerun_metadata t.func_key_map metas }

unfoldable pub clear : BySetTrigger → Session → BySetTrigger
clear t session = record t {
  session_prepared_keys_map = erase t.session_prepared_keys_map session;
  session_status_cache = erase t.session_status_cache session;
}
