-- ===== src/Scheduler/Choice.antt =====
-- scheduler_server.cpp: the loop of schedule_func_call over the executors against what it looks for.
use pheromone.Base.{
  ℕ, ◌≡◌, refl, Bool, ◌&&◌, ◌||◌, List, [], ◌∷◌, Option, some, none, nat_eq, if◌then◌else◌, arith,
}
use pheromone.Base.Maps.{Map}
use pheromone.Base.Sets.{contains}
use pheromone.Scheduler.Types.{ExecutorStatus}
use pheromone.Scheduler.Statuses.{find_executors, is_available, is_empty_status}

-- The executors with a property, in the order of iteration.
abbrev pub those : (ℕ → ExecutorStatus → Bool) → Map ℕ ExecutorStatus → List ℕ
those p [] = []
those p ((id, status) ∷ m) = let rest = those p m in if p id status then id ∷ rest else rest

abbrev pub first : List ℕ → Option ℕ
first [] = none
first (id ∷ ids) = some id

-- An available executor that has run the function.
abbrev pub is_warm : List ℕ → ℕ → ExecutorStatus → Bool
is_warm warm id status = is_available status && contains warm id

-- An empty executor, or an available one where executors are shared.
abbrev pub is_cold : Bool → ℕ → ExecutorStatus → Bool
is_cold shared id status = is_empty_status status || (shared && is_available status)

-- The loop finds the first warm executor, and where there is none all the cold ones.
pub find_executors_lem :
    (shared : Bool) (warm : List ℕ) (m : Map ℕ ExecutorStatus)
    → ((find_executors shared warm m).0 ≡ first (those (is_warm warm) m))
      × (first (those (is_warm warm) m) ≡ none
          → (find_executors shared warm m).1 ≡ those (is_cold shared) m)
unfolding find_executors
find_executors_lem shared warm [] = (refl, λ h. refl)
find_executors_lem shared warm ((id, status) ∷ m) = ground (arith, find_executors_lem shared warm m)
