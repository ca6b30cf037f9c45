-- ===== src/Scheduler/Credit/Moves.antt =====
-- scheduler_server.cpp: schedule_func_call and what it uses send an executor a call only when it is
-- free, whatever the executors' states.
use pheromone.Base.{
  ℕ, ◌≡◌, refl, Bytes, Session, List, [], ◌∷◌, Option, some, none, false, arith, Holds, Holds-bind,
  Holds-trivial, Holds-if, Holds-both, bytes_eq, nat_eq, ltb,
}
use pheromone.Base.Maps.{get, get_or, Distinct}
use pheromone.Base.Runs.{
  Run, skip, crash, modify, emit, ◌▷◌, each, Keeps, Keeps-then, Keeps-each, Keeps-if, Keeps-given,
}
use pheromone.Scheduler.Types.{Scheduler, Settings, Effect, send_to_executer, RerunTriggerTimeout}
use pheromone.Scheduler.Schedule.{
  send_to, assign, start_on, schedule_func_call, postpone, place, note_rerun, call_message,
  update_at, forward_args,
}
use pheromone.Scheduler.Forward.{
  forward_call_via_helper, pack, total_data_size, is_positive, forward_data_packing_threshold,
}
use pheromone.Scheduler.Credit.{
  Spends, Spends-quiet, Spends-still, Spends-joins, assign-Spends, picked-IsFreeIn, IsFreeIn,
  is_call_message,
}
use pheromone.Trigger.Types.{TriggerFunctionMetadata}

module _ (e : ℕ) where
  abbrev pub IsFair : Scheduler → Run Scheduler Effect → Type 0
  IsFair s m = Keeps (Spends e) s m

  pub IsFair-then :
      (m n : Run Scheduler Effect) (s : Scheduler)
      → IsFair s m
      → ((t : Scheduler) → IsFair t n)
      → IsFair s (m ▷ n)
  IsFair-then = Keeps-then (Spends e) (Spends-still e) (Spends-joins e)

  pub IsFair-each {ℓ} :
      {A : Type ℓ} (f : A → Run Scheduler Effect) (xs : List A) (s : Scheduler)
      → ((a : A) (t : Scheduler) → IsFair t (f a))
      → IsFair s (each f xs)
  IsFair-each f xs s h = Keeps-each (Spends e) (Spends-still e) (Spends-joins e) f xs s h

  -- A run from a state with the same executors.
  pub IsFair-from :
      (s t : Scheduler) (m : Run Scheduler Effect)
      → t.executor_status_map ≡ s.executor_status_map
      → IsFair t m
      → Holds (λ r. Spends e s r.0 r.1) (m t)
  IsFair-from s t m same h =
      Holds-both (λ r. Unit) (λ r. Spends e t r.0 r.1) (λ r. Spends e s r.0 r.1) (m t)
        (Holds-trivial _) h
        (λ r u p. Spends-joins e s t r.0 [] r.1 (Spends-quiet e s t [] same refl) p)

  note_rerun-IsFair :
      (now : ℕ) (session : Session) (meta : TriggerFunctionMetadata) (r : RerunTriggerTimeout)
      (s : Scheduler)
      → IsFair s (note_rerun now session meta r)
  unfolding note_rerun
  note_rerun-IsFair now session meta r s =
      Holds-bind (λ x. Unit) (λ x. Spends e s x.0 x.1) (update_at r.trigger_ptr _ s.triggers) _
        (Holds-trivial _) (λ ts u d. (d, omega arith))

  module _ (st : Settings) where
    pub forward_call_via_helper-IsFair :
        (session : Session) (app_name : Bytes) (names : List Bytes) (args : List (List Bytes))
        (arg_flag : ℕ) (s : Scheduler)
        → IsFair s (forward_call_via_helper st session app_name names args arg_flag)
    unfolding forward_call_via_helper pack
    forward_call_via_helper-IsFair session app_name names args arg_flag s =
        Keeps-if (Spends e) (is_positive arg_flag) _ _ s
          (Keeps-given (Spends e) (total_data_size args) _ s (λ total.
            Holds-if (λ x. Spends e s x.0 x.1) (ltb total forward_data_packing_threshold) _ _
              (λ d. (d, omega arith)) (λ d. (d, omega arith))))
          (λ d. (d, omega arith))

    module _ (now : ℕ) where
      pub send_to-IsFair :
          (id : ℕ) (msg : Bytes) (s : Scheduler)
          → is_call_message msg ≡ false
          → IsFair s (send_to st id msg)
      unfolding send_to
      send_to-IsFair id msg s h =
          Keeps-if (Spends e) (ltb id st.executor_num) (emit (send_to_executer id msg)) crash s
            (λ d. (d, ground (arith, h))) tt

      postpone-IsFair :
          (session : Session) (app_name func : Bytes) (args : List Bytes) (arg_flag : ℕ)
          (s : Scheduler)
          → IsFair s (postpone st now session app_name func args arg_flag)
      unfolding postpone
      postpone-IsFair session app_name func args arg_flag s =
          Keeps-if (Spends e) (ltb 0 st.sched_delay_time) (modify _) _ s (λ d. (d, omega arith))
            (Keeps-if (Spends e) st.reject_extra_req skip _ s (Spends-still e s) (
              Keeps-given (Spends e) (forward_args arg_flag args) _ s (λ a.
                forward_call_via_helper-IsFair session app_name (func ∷ []) (a ∷ []) arg_flag s)))

      start_on-IsFair :
          (id : ℕ) (session : Session) (func : Bytes) (args : List Bytes) (arg_flag : ℕ)
          (s : Scheduler)
          → (Distinct s.executor_status_map → IsFreeIn s.executor_status_map id)
          → IsFair s (start_on st now id session func args arg_flag)
      unfolding start_on call_message
      start_on-IsFair id session func args arg_flag s free =
          IsFair-then (assign st now id _) _ s (assign-Spends st now e id _ s refl free) (λ t.
            IsFair-each (note_rerun now session _) (get_or (get s.func_trigger_timeout_map func) [])
              t (λ r u. note_rerun-IsFair now session _ r u))

      place-IsFair :
          (session : Session) (app_name func : Bytes) (args : List Bytes) (arg_flag seed : ℕ)
          (warm chosen : Option ℕ) (s : Scheduler)
          → (Distinct s.executor_status_map → Holds (IsFreeIn s.executor_status_map) chosen)
          → IsFair s (place st now session app_name func args arg_flag seed warm chosen)
      unfolding place
      place-IsFair session app_name func args arg_flag seed warm none s free =
          postpone-IsFair session app_name func args arg_flag s
      place-IsFair session app_name func args arg_flag seed warm (some id) s free =
          start_on-IsFair id session func args arg_flag _ free

      pub schedule_func_call-IsFair :
          (session : Session) (app_name func : Bytes) (args : List Bytes) (arg_flag : ℕ)
          (s : Scheduler)
          → IsFair s (schedule_func_call st now session app_name func args arg_flag)
      unfolding schedule_func_call
      schedule_func_call-IsFair session app_name func args arg_flag s =
          place-IsFair session app_name func args arg_flag _ _ _ s
            (picked-IsFreeIn st.shared_executor _ s.executor_status_map _)
