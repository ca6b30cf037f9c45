-- ===== src/Trigger/ByTime.antt =====
-- trigger.hpp, class ByTimeTrigger: the objects of a time window trigger the function together. The
-- time of the system clock, in nanoseconds, is an argument.
pub mod Windows
use pheromone.Base.{
  ℕ, ◌-◌, ◌/◌, Bytes, Key, Session, Bool, List, [], ◌∷◌, ◌++◌, leb, ltb, nat_beq, ◌&&◌,
  if◌then◌else◌,
}
use pheromone.Common.{BucketKey}
use pheromone.Trigger.Types.{TriggerAction, session_key}

pub record ByTimeTrigger : Type 0 where
  pub time_window : ℕ
  pub buffer : List (Session × Key)
  pub last_trigger_stamp : ℕ

-- `now` is the time at which the trigger is made.
abbrev pub init : ℕ → ℕ → ByTimeTrigger
init now time_window = record { time_window = time_window; buffer = []; last_trigger_stamp = now }

-- duration_cast<milliseconds>(cur - last).count() >= window: the cast rounds towards 0, and the
-- clock may have been set back.
unfoldable pub window_over : ℕ → ℕ → ℕ → Bool
window_over cur last window =
    if leb last cur
    then leb window ((cur - last) / 1000000)
    else nat_beq window 0 && ltb (last - cur) 1000000

unfoldable pub action_for_new_object :
    ℕ → Bytes → ByTimeTrigger → BucketKey → ByTimeTrigger × List TriggerAction
unfolding window_over
action_for_new_object cur_stamp target t k =
    let buffer = t.buffer ++ session_key k ∷ [] in
    if window_over cur_stamp t.last_trigger_stamp t.time_window
    then (
      record t { buffer = []; last_trigger_stamp = cur_stamp },
      record { function = target; session_keys = buffer } ∷ [],
    )
    else (record t { buffer = buffer }, [])

unfoldable pub clear : ByTimeTrigger → ByTimeTrigger
clear t = record t { buffer = [] }
