-- ===== src/Scheduler/Queues.antt =====
-- scheduler_server.cpp, run(): the delayed calls, the reruns and the report. `now` is the time of
-- the clock in nanoseconds.
use pheromone.Base.{
  ℕ, zero, suc, ◌-◌, ◌/◌, Bool, List, [], ◌∷◌, Option, some, none, ltb, leb, if◌then◌else◌,
  bytes_eq, get_elem?, length,
}
use pheromone.Base.Maps.{get, get_or}
use pheromone.Base.Runs.{Run, skip, modify, given, ◌▷◌, each}
use pheromone.Trigger.Dispatch.{action_for_rerun}
use pheromone.Trigger.Types.{TriggerFunctionMetadata}
use pheromone.Scheduler.Types.{
  Scheduler, Settings, Effect, update_status, DelayFunctionCall, RerunCheckQueueItem,
}
use pheromone.Scheduler.Statuses.{get_avail_executor_num}
use pheromone.Scheduler.Forward.{forward_call_via_helper}
use pheromone.Scheduler.Schedule.{schedule_func_call}

abbrev pub pop {ℓ} : {A : Type ℓ} → List A → List A
pop [] = []
pop (x ∷ xs) = xs

abbrev pub pop_delayed : Scheduler → Scheduler
pop_delayed s = record s { delay_call_queue = pop s.delay_call_queue }

abbrev pub pop_rerun : Scheduler → Scheduler
pop_rerun s = record s { rerun_check_queue = pop s.rerun_check_queue }

-- The body of a loop that ends with an empty queue.
abbrev pub at_front {ℓ} :
    {A : Type ℓ} → Option A → (A → Run Scheduler Effect) → Run Scheduler Effect
at_front none f = skip
at_front (some x) f = f x

-- Milliseconds between two reports.
abbrev pub sched_timer_threshold : ℕ
sched_timer_threshold = 10

module _ (st : Settings) (now : ℕ) where
  abbrev pub retry : DelayFunctionCall → Run Scheduler Effect
  retry c = schedule_func_call st now c.session_id c.app_name c.func_name c.func_args c.arg_flag

  -- The first loop: a call for every executor that was free before. It pops behind the push of a
  -- call that is delayed again.
  unfoldable pub retry_delayed : ℕ → Run Scheduler Effect
  unfolding schedule_func_call
  retry_delayed zero s = some (s, [])
  retry_delayed (suc avail) s =
      at_front (get_elem? s.delay_call_queue 0)
        (λ c. retry c ▷ modify pop_delayed ▷ retry_delayed avail) s

  -- Whole microseconds of waiting against schedDelayTime.
  abbrev pub is_late : DelayFunctionCall → Bool
  is_late c = ltb st.sched_delay_time ((now - c.trigger_time) / 1000)

  abbrev pub give_up : DelayFunctionCall → Run Scheduler Effect
  give_up c =
      if st.reject_extra_req
      then skip
      else forward_call_via_helper st c.session_id c.app_name (c.func_name ∷ []) (c.func_args ∷ [])
          c.arg_flag

  -- The second loop, on the calls in the queue: it stops at the first that is not late.
  unfoldable pub expire_from : List DelayFunctionCall → Run Scheduler Effect
  unfolding forward_call_via_helper
  expire_from [] = skip
  expire_from (c ∷ queue) =
      if is_late c then give_up c ▷ modify pop_delayed ▷ expire_from queue else skip

  unfoldable pub delay_forwarding : Run Scheduler Effect
  unfolding get_avail_executor_num retry_delayed expire_from
  delay_forwarding s =
      (retry_delayed (get_avail_executor_num s.executor_status_map) ▷ λ t.
      expire_from t.delay_call_queue t)
        s

  abbrev pub rerun_call : RerunCheckQueueItem → TriggerFunctionMetadata → Run Scheduler Effect
  rerun_call item m s =
      schedule_func_call st now item.session (get_or (get s.func_app_map m.func_name) [])
        m.func_name m.func_args m.arg_flag s

  -- The calls to repeat for one item, which is taken off the top of the queue afterwards.
  unfoldable pub rerun_item : RerunCheckQueueItem → Run Scheduler Effect
  unfolding schedule_func_call
  rerun_item item s =
      (given (get_elem? s.triggers item.trigger_ptr)
            (λ t. each (rerun_call item) (action_for_rerun t item.session))
          ▷ modify pop_rerun)
        s

  -- The loop over the items that are due. Without fuel it stops where it is.
  unfoldable pub rerun_check : ℕ → Run Scheduler Effect
  unfolding rerun_item
  rerun_check zero s = some (s, [])
  rerun_check (suc fuel) s =
      at_front (get_elem? s.rerun_check_queue 0)
        (λ item. if leb item.check_time now then rerun_item item ▷ rerun_check fuel else skip) s

  unfoldable pub report : Run Scheduler Effect
  unfolding get_avail_executor_num
  report s = some (
    record s { report_start = now },
    update_status (get_avail_executor_num s.executor_status_map) s.function_cache ∷ [],
  )

  -- Whole milliseconds since the last report.
  abbrev pub is_report_due : Scheduler → Bool
  is_report_due s = leb sched_timer_threshold ((now - s.report_start) / 1000000)

  unfoldable pub periodic : Run Scheduler Effect
  unfolding rerun_check report
  periodic s =
      (if is_report_due s then rerun_check (length s.rerun_check_queue) ▷ report else skip) s
