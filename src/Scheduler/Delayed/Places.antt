-- ===== src/Scheduler/Delayed/Places.antt =====
-- scheduler_server.cpp: what schedule_func_call does with one call.
use mathlib.Core.Path.{subst}
use mathlib.Core.List.{append-nil}
use pheromone.Base.{
  Option-cases, inl, inr, ℕ, ◌+◌, ◌≡◌, refl, Bytes, Session, Bool, false, List, [], ◌∷◌, ◌++◌,
  Option, some, none, arith, Holds, Holds-bind, Holds-if, Holds-both, ap, ◌∙◌, Holds-trivial, ltb,
  sym, bytes_eq,
}
use pheromone.Base.Maps.{get, get_or}
use pheromone.Base.Runs.{
  Run, skip, crash, emit, ◌▷◌, Keeps, Keeps-each, Keeps-if, Keeps-given, Keeps-else,
}
use pheromone.Scheduler.Types.{
  Scheduler, Settings, Effect, send_to_executer, DelayFunctionCall, RerunTriggerTimeout,
}
use pheromone.Scheduler.Forward.{
  forward_call_via_helper, pack, forward_data_packing_threshold, total_data_size, is_positive,
}
use pheromone.Scheduler.Schedule.{
  send_to, assign, start_on, postpone, place, schedule_func_call, note_rerun, update_at,
  call_message, forward_args,
}
use pheromone.Trigger.Types.{TriggerFunctionMetadata}
use pheromone.Scheduler.Delayed.{Request, times, IsCallOf, to_executor, forwarded_flat, AreCalls}

-- Nothing starts, and the queue stays.
abbrev IsIdle : Scheduler → Scheduler → List Effect → Type 0
IsIdle s t effects = (effects ≡ []) × (t.delay_call_queue ≡ s.delay_call_queue)

IsIdle-joins :
    (s t u : Scheduler) (xs ys : List Effect)
    → IsIdle s t xs
    → IsIdle t u ys
    → IsIdle s u (xs ++ ys)
IsIdle-joins s t u xs ys p q = (rw (p.0, q.0) refl, q.1 ∙ p.1)

note_rerun-IsIdle :
    (now : ℕ) (session : Session) (meta : TriggerFunctionMetadata) (r : RerunTriggerTimeout)
    (s : Scheduler)
    → Keeps IsIdle s (note_rerun now session meta r)
unfolding note_rerun
note_rerun-IsIdle now session meta r s =
    Holds-bind (λ x. Unit) (λ x. IsIdle s x.0 x.1) (update_at r.trigger_ptr _ s.triggers) _
      (Holds-trivial _) (λ ts u. (refl, refl))

-- One effect, and the queue stays.
abbrev pub Forwards : Scheduler → Scheduler → List Effect → Type 0
Forwards s t effects = (e : Effect) × (effects ≡ e ∷ []) × (t.delay_call_queue ≡ s.delay_call_queue)

pub Holds-self : {A : Type 0} (o : Option A) → Holds (λ r. o ≡ some r) o
Holds-self none = tt
Holds-self (some a) = refl

module _ (st : Settings) where
  pub forward_call-Forwards :
      (session : Session) (app_name : Bytes) (names : List Bytes) (args : List (List Bytes))
      (arg_flag : ℕ) (s : Scheduler)
      → Keeps Forwards s (forward_call_via_helper st session app_name names args arg_flag)
  unfolding forward_call_via_helper pack
  forward_call-Forwards session app_name names args arg_flag s =
      Keeps-if Forwards (is_positive arg_flag) _ _ s
        (Keeps-given Forwards (total_data_size args) _ s (λ total.
          Holds-if (λ x. Forwards s x.0 x.1) (ltb total forward_data_packing_threshold) _ _
            (_, refl, refl) (_, refl, refl)))
        (_, refl, refl)

  module _ (now : ℕ) (c : DelayFunctionCall) where
    -- The call starts, or is behind those in the queue.
    abbrev pub Places : Scheduler → Scheduler → List Effect → Type 0
    Places s t effects =
        (cs : List DelayFunctionCall) × (more : List DelayFunctionCall) × AreCalls st cs effects
        × (t.delay_call_queue ≡ s.delay_call_queue ++ more)
        × ((p : Request → Bool) → times p cs + times p more ≡ times p (c ∷ []))

    -- An effect that starts the call.
    started-Places :
        (s t : Scheduler) (effects : List Effect) (e : Effect)
        → effects ≡ e ∷ []
        → t.delay_call_queue ≡ s.delay_call_queue
        → IsCallOf st c e
        → Places s t effects
    started-Places s t effects e one kept starts = (
      c ∷ [],
      [],
      subst (AreCalls st (c ∷ [])) (sym one) (starts, tt),
      kept ∙ sym (append-nil s.delay_call_queue),
      λ p. omega arith,
    )

    Places-then :
        (m m' : Run Scheduler Effect) (s : Scheduler)
        → Keeps Places s m
        → ((t : Scheduler) → Keeps IsIdle t m')
        → Keeps Places s (m ▷ m')
    unfolding ◌▷◌
    Places-then m m' s h k =
        Holds-bind (λ r. Places s r.0 r.1) (λ r. Places s r.0 r.1) (m s) _ h
          λ r (cs, more, calls, queue, counts).
            Holds-bind (λ q. IsIdle r.0 q.0 q.1) (λ r. Places s r.0 r.1) (m' r.0) _ (k r.0)
              λ q (quiet, kept). (
                cs,
                more,
                subst (AreCalls st cs) (sym (ap (λ x. r.1 ++ x) quiet ∙ append-nil r.1)) calls,
                kept ∙ queue,
                counts,
              )

    start_on-Places :
        (id : ℕ) (s : Scheduler)
        → Keeps Places s (start_on st now id c.session_id c.func_name c.func_args c.arg_flag)
    unfolding start_on assign send_to
    start_on-Places id s =
        let msg = call_message c.session_id c.func_name c.func_args c.arg_flag s in
        Places-then _ _ s
          (Places-then _ _ s
            (Keeps-if Places (ltb id st.executor_num) (emit (send_to_executer id msg)) crash s
              (started-Places s s _ _ refl refl (to_executor id s)) tt)
            (λ t. (refl, refl)))
          (λ t.
            Keeps-each IsIdle (λ u. (refl, refl)) IsIdle-joins (note_rerun now c.session_id _)
              (get_or (get s.func_trigger_timeout_map c.func_name) []) t
              (λ r u. note_rerun-IsIdle now c.session_id _ r u))

    -- A call that the helper forwards.
    one_effect-Places :
        (m : Run Scheduler Effect) (s : Scheduler)
        → Keeps Forwards s m
        → ((t : Scheduler) (e : Effect) → m s ≡ some (t, e ∷ []) → IsCallOf st c e)
        → Keeps Places s m
    one_effect-Places m s h starts =
        Holds-both (λ r. m s ≡ some r) (λ r. Forwards s r.0 r.1) (λ r. Places s r.0 r.1) (m s)
          (Holds-self (m s)) h
          (λ r same (e, one, kept).
            started-Places s r.0 r.1 e one kept (starts r.0 e (same ∙ ap (λ x. some (r.0, x)) one)))

    module _ (accept : st.reject_extra_req ≡ false) where
      postpone-Places :
          (s : Scheduler)
          → Keeps Places s
              (postpone st now c.session_id c.app_name c.func_name c.func_args c.arg_flag)
      unfolding postpone
      postpone-Places s =
          Keeps-if Places (ltb 0 st.sched_delay_time) _ _ s
            ([], record c { trigger_time = now } ∷ [], tt, refl, (λ p. omega arith))
            (Keeps-else Places st.reject_extra_req skip _ s accept
              (elim (Option-cases (forward_args c.arg_flag c.func_args)) [
                | inl e ↦ rw e tt
                | inr (args, e) ↦ rw e (
                    one_effect-Places
                      (forward_call_via_helper st c.session_id c.app_name (c.func_name ∷ [])
                        (args ∷ []) c.arg_flag)
                      s
                      (forward_call-Forwards c.session_id c.app_name (c.func_name ∷ []) (args ∷ [])
                        c.arg_flag s)
                      (λ t x same. forwarded_flat args s t x e same))
              ]))

      place-Places :
          (seed : ℕ) (warm chosen : Option ℕ) (s : Scheduler)
          → Keeps Places s (
              place st now c.session_id c.app_name c.func_name c.func_args c.arg_flag seed warm
                chosen)
      unfolding place
      place-Places seed warm none s = postpone-Places s
      place-Places seed warm (some id) s = start_on-Places id _

      -- The call is started or behind those in the queue.
      pub schedule_func_call-Places :
          (s : Scheduler)
          → Keeps Places s
              (schedule_func_call st now c.session_id c.app_name c.func_name c.func_args c.arg_flag)
      unfolding schedule_func_call
      schedule_func_call-Places s = place-Places _ _ _ s
