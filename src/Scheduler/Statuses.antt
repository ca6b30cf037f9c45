-- ===== src/Scheduler/Statuses.antt =====
-- scheduler_server.cpp: the status of the executors.
use pheromone.Base.{
  ℕ, suc, Bool, true, false, List, [], ◌∷◌, Option, some, none, if◌then◌else◌, nat_eq, ◌||◌, ◌&&◌,
}
use pheromone.Base.Maps.{Map}
use pheromone.Base.Sets.{contains}
use pheromone.Scheduler.Types.{ExecutorStatus, empty, available}

abbrev pub is_available : ExecutorStatus → Bool
is_available available = true
is_available _ = false

abbrev pub is_empty_status : ExecutorStatus → Bool
is_empty_status empty = true
is_empty_status _ = false

-- empty or available
abbrev pub is_free : ExecutorStatus → Bool
is_free empty = true
is_free available = true
is_free _ = false

unfoldable pub get_avail_executor_num : Map ℕ ExecutorStatus → ℕ
get_avail_executor_num [] = 0
get_avail_executor_num ((id, status) ∷ m) =
    if is_free status then suc (get_avail_executor_num m) else get_avail_executor_num m

-- The first loop of schedule_func_call: a warm executor, where the loop stops, and the cold ones
-- that were met.
unfoldable pub find_executors : Bool → List ℕ → Map ℕ ExecutorStatus → Option ℕ × List ℕ
find_executors shared warm [] = (none, [])
find_executors shared warm ((id, status) ∷ m) =
    let (found, cold) = find_executors shared warm m in
    if is_available status && contains warm id
    then (some id, [])
    else if is_empty_status status || (shared && is_available status)
    then (found, id ∷ cold)
    else (found, cold)
