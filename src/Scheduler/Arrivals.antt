-- ===== src/Scheduler/Arrivals.antt =====
-- object_handlers.cpp, check_object_arrival, and scheduler_server.cpp, check_trigger. `now` is the
-- time of the clock.
use pheromone.Base.{
  ℕ, ◌+◌, ◌%◌, Bytes, Bucket, Session, Key, Bool, true, ◌&&◌, List, [], ◌∷◌, ◌++◌, map, Option,
  some, if◌then◌else◌, ◌>>=◌, bytes_eq, get_elem?,
}
use pheromone.Base.Maps.{Map, get, has, get_or, is_empty}
use pheromone.Base.Runs.{Run, each}
use pheromone.Common.{BucketKey, get_local_object_name}
use pheromone.Common.Decimal.{to_string}
use pheromone.Trigger.Dispatch.{action_for_new_object}
use pheromone.Trigger.Types.{TriggerAction, TriggerFunctionMetadata}
use pheromone.Scheduler.Types.{Scheduler, Settings, Effect, TriggerPointer}
use pheromone.Scheduler.Forward.{key_len, touch}
use pheromone.Scheduler.Schedule.{update_at, schedule_func_call}

abbrev all_in : Map Bytes Bytes → List Bytes → Bool
all_in values [] = true
all_in values (name ∷ names) = has values name && all_in values names

abbrev value_of : Map Bytes Bytes → Bytes → Bytes
value_of values name = get_or (get values name) []

-- Every name with the length of its object.
abbrev pub with_lengths : List Bytes → Map Bytes ℕ → List Bytes × Map Bytes ℕ
with_lengths [] lens = ([], lens)
with_lengths (name ∷ names) lens =
    let (more, lens') = with_lengths names (touch lens name) in
    (name ∷ to_string (key_len lens name) ∷ more, lens')

abbrev object_names : Bucket → List (Session × Key) → List Bytes
object_names bucket [] = []
object_names bucket ((session, key) ∷ rest) =
    get_local_object_name bucket key session ∷ object_names bucket rest

-- The calls for the actions of one trigger. Once an action has had all its values at hand, the flag
-- is 0 for the later ones too.
unfoldable pub prepare :
    Map Bytes Bytes
    → Bucket
    → ℕ
    → List TriggerAction
    → Map Bytes ℕ
    → List TriggerFunctionMetadata × Map Bytes ℕ
prepare values bucket arg_flag [] lens = ([], lens)
prepare values bucket arg_flag (action ∷ actions) lens =
    let names = object_names bucket action.session_keys in
    let cached = all_in values names in
    let flag = if cached then 0 else arg_flag in
    let (args, lens') =
      if cached then (map (value_of values) names, lens) else with_lengths names lens in
    let (more, lens'') = prepare values bucket flag actions lens' in
    (record { func_name = action.function; func_args = args; arg_flag = flag } ∷ more, lens'')

-- The state, the names of the triggers that became active, and the calls.
abbrev pub Arrived : Type 0
Arrived = Scheduler × List Bytes × List TriggerFunctionMetadata

unfoldable pub arrive_at : ℕ → BucketKey → TriggerPointer → Scheduler → Option Arrived
unfolding update_at prepare
arrive_at now k pointer s = do
  t ← get_elem? s.triggers pointer
  let (t', actions) = action_for_new_object now t k
  ts ← update_at pointer (λ u. t') s.triggers
  let (metas, lens) =
      prepare s.key_val_map k.bucket ((t.trigger_option + 1) % 4294967296) actions s.key_len_map
  some (
    record s { triggers = ts; key_len_map = lens },
    if is_empty actions then [] else t.trigger_name ∷ [],
    metas,
  )

unfoldable pub check_object_arrival :
    ℕ → BucketKey → List TriggerPointer → Scheduler → Option Arrived
unfolding arrive_at
check_object_arrival now k [] s = some (s, [], [])
check_object_arrival now k (pointer ∷ pointers) s = do
  (s', names, metas) ← arrive_at now k pointer s
  (s'', names', metas') ← check_object_arrival now k pointers s'
  some (s'', names ++ names', metas ++ metas')

module _ (st : Settings) (now : ℕ) where
  abbrev pub schedule_all : Session → Bytes → List TriggerFunctionMetadata → Run Scheduler Effect
  schedule_all session app_name =
      each (λ m. schedule_func_call st now session app_name m.func_name m.func_args m.arg_flag)

  -- The names of the active triggers, with the state and the effects.
  unfoldable pub check_trigger :
      BucketKey → Session → Scheduler → Option (List Bytes × Scheduler × List Effect)
  unfolding check_object_arrival schedule_func_call
  check_trigger k session s = do
    (s', names, metas) ←
        check_object_arrival now k (get_or (get s.bucket_triggers_map k.bucket) []) s
    (s'', effects) ← schedule_all session (get_or (get s'.bucket_app_map k.bucket) []) metas s'
    some (names, s'', effects)
