-- ===== src/Scheduler/Delayed/Passes.antt =====
-- scheduler_server.cpp, run(): the two loops over the delayed calls.
use mathlib.Core.Path.{subst}
use pheromone.Base.{
  ℕ, zero, suc, ◌+◌, ◌≡◌, refl, sym, ap, ◌∙◌, Bool, false, List, [], ◌∷◌, ◌++◌, some, arith, Holds,
  Holds-bind, Holds-both, Holds-trivial, get_elem?, bytes_eq,
}
use pheromone.Base.Runs.{Run, skip, modify, ◌▷◌, Keeps, Keeps-then, Keeps-if, Keeps-else}
use pheromone.Scheduler.Types.{Scheduler, Settings, Effect, DelayFunctionCall}
use pheromone.Scheduler.Forward.{forward_call_via_helper}
use pheromone.Scheduler.Statuses.{get_avail_executor_num}
use pheromone.Scheduler.Queues.{
  retry, pop, pop_delayed, at_front, retry_delayed, is_late, give_up, expire_from, delay_forwarding,
}
use pheromone.Scheduler.Delayed.{Request, times, times-append, forwarded, AreCalls, AreCalls-append}
use pheromone.Scheduler.Delayed.Places.{
  Forwards, Holds-self, forward_call-Forwards, Places, schedule_func_call-Places,
}

module _ (st : Settings) (now : ℕ) where
  -- What leaves the queue starts, and what does not start stays.
  abbrev Conserves : Scheduler → Scheduler → List Effect → Type 0
  Conserves s t effects =
      (cs : List DelayFunctionCall) × AreCalls st cs effects
      × ((p : Request → Bool)
          → times p cs + times p t.delay_call_queue ≡ times p s.delay_call_queue)

  Conserves-still : (s : Scheduler) → Conserves s s []
  Conserves-still s = ([], tt, λ p. omega arith)

  Conserves-joins :
      (s t u : Scheduler) (xs ys : List Effect)
      → Conserves s t xs
      → Conserves t u ys
      → Conserves s u (xs ++ ys)
  Conserves-joins s t u xs ys (cs, calls, counts) (ds, calls', counts') = (
    cs ++ ds,
    AreCalls-append st cs ds xs ys calls calls',
    λ p. omega (arith, counts p, counts' p, times-append p cs ds),
  )

  -- The same behind the pop of the call.
  abbrev Fronts :
      (Scheduler → Type 0) → DelayFunctionCall → Scheduler → Scheduler → List Effect → Type 0
  Fronts Q c s t effects =
      (cs : List DelayFunctionCall) × (rest : List DelayFunctionCall) × AreCalls st cs effects
      × (t.delay_call_queue ≡ c ∷ rest)
      × ((p : Request → Bool) → times p cs + times p rest ≡ times p s.delay_call_queue)
      × Q t

  -- A run on the call at the front, its pop, and the loop that goes on.
  then_pop :
      (Q : Scheduler → Type 0) (c : DelayFunctionCall) (m m' : Run Scheduler Effect) (s : Scheduler)
      → Keeps (Fronts Q c) s m
      → ((t : Scheduler) → Q t → Keeps Conserves (pop_delayed t) m')
      → Keeps Conserves s (m ▷ modify pop_delayed ▷ m')
  unfolding ◌▷◌
  then_pop Q c m m' s h k =
      Holds-bind (λ r. Fronts Q c s r.0 r.1) (λ r. Conserves s r.0 r.1) (m s) _ h
        λ r (cs, rest, calls, queue, counts, q).
          Holds-bind {B = Scheduler × List Effect} (λ x. Conserves (pop_delayed r.0) x.0 x.1)
            (λ x. Conserves s x.0 x.1) ((modify pop_delayed ▷ m') r.0) _
            (Holds-bind (λ x. Conserves (pop_delayed r.0) x.0 x.1)
              (λ x. Conserves (pop_delayed r.0) x.0 x.1) (m' (pop_delayed r.0)) _ (k r.0 q)
              (λ x p'. p'))
            λ x (ds, calls', counts'). (
              cs ++ ds,
              AreCalls-append st cs ds r.1 x.1 calls calls',
              λ p. omega (
                arith,
                counts p,
                counts' p,
                times-append p cs ds,
                ap (λ l. times p (pop l)) queue,
              ),
            )

  at_front-Conserves :
      (queue : List DelayFunctionCall) (f : DelayFunctionCall → Run Scheduler Effect)
      (s : Scheduler)
      → s.delay_call_queue ≡ queue
      → ((c : DelayFunctionCall) (rest : List DelayFunctionCall)
          → s.delay_call_queue ≡ c ∷ rest
          → Keeps Conserves s (f c))
      → Keeps Conserves s (at_front (get_elem? queue 0) f)
  at_front-Conserves [] f s e h = Conserves-still s
  at_front-Conserves (c ∷ queue) f s e h = h c queue e

  module _ (accept : st.reject_extra_req ≡ false) where
    retry-Fronts :
        (c : DelayFunctionCall) (rest : List DelayFunctionCall) (s : Scheduler)
        → s.delay_call_queue ≡ c ∷ rest
        → Keeps (Fronts (λ t. Unit) c) s (retry st now c)
    retry-Fronts c rest s front =
        Holds-both (λ r. Unit) (λ r. Places st now c s r.0 r.1)
          (λ r. Fronts (λ t. Unit) c s r.0 r.1) (retry st now c s) (Holds-trivial _)
          (schedule_func_call-Places st now c accept s)
          (λ r u (cs, more, calls, queue, counts). (
            cs,
            rest ++ more,
            calls,
            queue ∙ ap (λ l. l ++ more) front,
            (λ p. omega (arith, counts p, times-append p rest more, ap (times p) front)),
            tt,
          ))

    retry_delayed-Conserves :
        (avail : ℕ) (s : Scheduler) → Keeps Conserves s (retry_delayed st now avail)
    unfolding retry_delayed
    retry_delayed-Conserves zero s = Conserves-still s
    retry_delayed-Conserves (suc avail) s =
        at_front-Conserves s.delay_call_queue
          (λ c. retry st now c ▷ modify pop_delayed ▷ retry_delayed st now avail) s refl
          (λ c rest front.
            then_pop (λ t. Unit) c _ _ s (retry-Fronts c rest s front)
              (λ t u. retry_delayed-Conserves avail (pop_delayed t)))

    give_up-Fronts :
        (c : DelayFunctionCall) (queue : List DelayFunctionCall) (s : Scheduler)
        → s.delay_call_queue ≡ c ∷ queue
        → Keeps (Fronts (λ t. t.delay_call_queue ≡ c ∷ queue) c) s (give_up st now c)
    unfolding forward_call_via_helper
    give_up-Fronts c queue s front =
        let run =
          forward_call_via_helper st c.session_id c.app_name (c.func_name ∷ []) (c.func_args ∷ [])
            c.arg_flag s in
        Keeps-else (Fronts (λ t. t.delay_call_queue ≡ c ∷ queue) c) st.reject_extra_req skip _ s
          accept
          (Holds-both (λ r. run ≡ some r) (λ r. Forwards s r.0 r.1)
            (λ r. Fronts (λ t. t.delay_call_queue ≡ c ∷ queue) c s r.0 r.1) run (Holds-self run)
            (forward_call-Forwards st c.session_id c.app_name (c.func_name ∷ []) (c.func_args ∷ [])
              c.arg_flag s)
            (λ r same (e, one, kept). (
              c ∷ [],
              queue,
              subst (AreCalls st (c ∷ [])) (sym one)
                  (forwarded s r.0 e (same ∙ ap (λ x. some (r.0, x)) one), tt),
              kept ∙ front,
              (λ p. omega (arith, ap (times p) front)),
              kept ∙ front,
            )))

    expire_from-Conserves :
        (queue : List DelayFunctionCall) (s : Scheduler)
        → s.delay_call_queue ≡ queue
        → Keeps Conserves s (expire_from st now queue)
    unfolding expire_from
    expire_from-Conserves [] s h = Conserves-still s
    expire_from-Conserves (c ∷ queue) s h =
        Keeps-if Conserves (is_late st now c) _ skip s
          (then_pop (λ t. t.delay_call_queue ≡ c ∷ queue) c _ _ s (give_up-Fronts c queue s h)
            (λ t u. expire_from-Conserves queue (pop_delayed t) (ap pop u)))
          (Conserves-still s)

  -- Where the scheduler forwards what it cannot place, and the pass does not crash, everything that
  -- the pass sends starts a call, one each: it is the message to an executor with the call's session,
  -- function, arguments and flag, or what the helper is given to forward the call, with its arguments
  -- as they are or as forward_args splits them. These calls and those in the queue afterwards are, but
  -- for the times from which they wait, the calls that were in the queue, each as often as it was.
  pub delay_forwarding-conserves :
      (s s' : Scheduler) (effects : List Effect)
      → st.reject_extra_req ≡ false
      → delay_forwarding st now s ≡ some (s', effects)
      → (cs : List DelayFunctionCall) × AreCalls st cs effects
        × ((p : Request → Bool)
            → times p cs + times p s'.delay_call_queue ≡ times p s.delay_call_queue)
  unfolding delay_forwarding
  delay_forwarding-conserves s s' effects accept done =
      subst (Holds (λ r. Conserves s r.0 r.1)) done (
        Keeps-then Conserves Conserves-still Conserves-joins _ _ s
          (retry_delayed-Conserves accept (get_avail_executor_num s.executor_status_map) s)
          (λ t. expire_from-Conserves accept t.delay_call_queue t refl))
