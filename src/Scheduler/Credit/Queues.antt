-- ===== src/Scheduler/Credit/Queues.antt =====
-- scheduler_server.cpp: delayed calls and reruns are sent only to free executors.
use pheromone.Base.{
  ℕ, zero, suc, List, [], ◌∷◌, Option, some, none, arith, leb, get_elem?, bytes_eq, if◌then◌else◌,
}
use pheromone.Base.Runs.{Run, skip, modify, ◌▷◌, Keeps-if, Keeps-given}
use pheromone.Trigger.Dispatch.{action_for_rerun}
use pheromone.Scheduler.Types.{Scheduler, Settings, Effect, DelayFunctionCall, RerunCheckQueueItem}
use pheromone.Scheduler.Queues.{
  retry, pop_delayed, retry_delayed, give_up, is_late, expire_from, delay_forwarding, at_front,
  rerun_item, rerun_check, report, is_report_due, periodic,
}
use pheromone.Scheduler.Credit.{Spends, Spends-still}
use pheromone.Scheduler.Credit.Moves.{
  IsFair, IsFair-then, IsFair-each, schedule_func_call-IsFair, forward_call_via_helper-IsFair,
}

module _ (e : ℕ) (st : Settings) (now : ℕ) where
  at_front-IsFair {ℓ} :
      {A : Type ℓ} (o : Option A) (f : A → Run Scheduler Effect) (s : Scheduler)
      → ((a : A) → IsFair e s (f a))
      → IsFair e s (at_front o f)
  at_front-IsFair none f s h = Spends-still e s
  at_front-IsFair (some a) f s h = h a

  retry_delayed-IsFair : (avail : ℕ) (s : Scheduler) → IsFair e s (retry_delayed st now avail)
  unfolding retry_delayed
  retry_delayed-IsFair zero s = Spends-still e s
  retry_delayed-IsFair (suc avail) s =
      at_front-IsFair (get_elem? s.delay_call_queue 0)
        (λ c. retry st now c ▷ modify (pop_delayed) ▷ retry_delayed st now avail) s
        λ c.
          IsFair-then e _ _ s
            (schedule_func_call-IsFair e st now c.session_id c.app_name c.func_name c.func_args
              c.arg_flag s)
            (λ t. IsFair-then e _ _ t (λ d. (d, omega arith)) (retry_delayed-IsFair avail))

  give_up-IsFair : (c : DelayFunctionCall) (s : Scheduler) → IsFair e s (give_up st now c)
  give_up-IsFair c s = Keeps-if (Spends e) st.reject_extra_req skip _ s (Spends-still e s) (
      forward_call_via_helper-IsFair e st c.session_id c.app_name (c.func_name ∷ [])
        (c.func_args ∷ []) c.arg_flag s)

  expire_from-IsFair :
      (queue : List DelayFunctionCall) (s : Scheduler) → IsFair e s (expire_from st now queue)
  unfolding expire_from
  expire_from-IsFair [] s = Spends-still e s
  expire_from-IsFair (c ∷ queue) s =
      Keeps-if (Spends e) (is_late st now c) _ skip s
        (IsFair-then e _ _ s (give_up-IsFair c s)
          (λ t. IsFair-then e _ _ t (λ d. (d, omega arith)) (expire_from-IsFair queue)))
        (Spends-still e s)

  pub delay_forwarding-IsFair : (s : Scheduler) → IsFair e s (delay_forwarding st now)
  unfolding delay_forwarding
  delay_forwarding-IsFair s =
      IsFair-then e _ _ s (retry_delayed-IsFair _ s) (λ t. expire_from-IsFair t.delay_call_queue t)

  rerun_item-IsFair :
      (item : RerunCheckQueueItem) (s : Scheduler) → IsFair e s (rerun_item st now item)
  unfolding rerun_item
  rerun_item-IsFair item s =
      IsFair-then e _ _ s
        (Keeps-given (Spends e) (get_elem? s.triggers item.trigger_ptr) _ s (λ t.
          IsFair-each e _ (action_for_rerun t item.session) s (λ m u.
            schedule_func_call-IsFair e st now item.session _ m.func_name m.func_args m.arg_flag
              u)))
        (λ t d. (d, omega arith))

  rerun_check-IsFair : (fuel : ℕ) (s : Scheduler) → IsFair e s (rerun_check st now fuel)
  unfolding rerun_check
  rerun_check-IsFair zero s = Spends-still e s
  rerun_check-IsFair (suc fuel) s =
      at_front-IsFair (get_elem? s.rerun_check_queue 0)
        (λ item.
          if leb item.check_time now
          then rerun_item st now item ▷ rerun_check st now fuel
          else skip)
        s
        λ item.
          Keeps-if (Spends e) (leb item.check_time now) _ skip s
            (IsFair-then e _ _ s (rerun_item-IsFair item s) (rerun_check-IsFair fuel))
            (Spends-still e s)

  pub periodic-IsFair : (s : Scheduler) → IsFair e s (periodic st now)
  unfolding periodic report
  periodic-IsFair s =
      Keeps-if (Spends e) (is_report_due st now s) _ skip s
        (IsFair-then e _ _ s (rerun_check-IsFair _ s) (λ t d. (d, omega arith))) (Spends-still e s)
