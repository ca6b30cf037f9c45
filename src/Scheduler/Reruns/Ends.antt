-- ===== src/Scheduler/Reruns/Ends.antt =====
-- scheduler_server.cpp: the loop over the reruns that are due comes to its end.
use mathlib.Core.Path.{subst}
use pheromone.Base.{
  ◌⊎◌, Option-cases, ap, ℕ, zero, suc, ◌≤◌, ◌≡◌, refl, sym, List, [], ◌∷◌, Option, none, some,
  Holds, Holds-bind, Holds-both, Holds-trivial, bytes_eq, leb, length, get_elem?, if◌then◌else◌,
  arith, Bool-cases, inl, inr,
}
use pheromone.Base.Runs.{Run, skip, ◌▷◌}
use pheromone.Scheduler.Types.{Scheduler, Settings, Effect, RerunCheckQueueItem}
use pheromone.Scheduler.Queues.{at_front, rerun_item, rerun_check}
use pheromone.Scheduler.Reruns.{Timeouts, AllLater, is_due, due, front_due, Steps, rerun_item-Steps}

module _ (now : ℕ) (m : Timeouts) (later : AllLater m) (st : Settings) where
  front_due-le_due : (queue : List RerunCheckQueueItem) → front_due now queue ≤ due now queue
  front_due-le_due [] = omega arith
  front_due-le_due (item ∷ queue) = omega arith

  at_front-ends :
      (queue : List RerunCheckQueueItem) (f : RerunCheckQueueItem → Run Scheduler Effect)
      (s : Scheduler)
      → s.rerun_check_queue ≡ queue
      → ((item : RerunCheckQueueItem)
          → front_due now s.rerun_check_queue ≡ is_due now item
          → Holds (λ r. front_due now r.0.rerun_check_queue ≡ 0) (f item s))
      → Holds (λ r. front_due now r.0.rerun_check_queue ≡ 0) (at_front (get_elem? queue 0) f s)
  at_front-ends [] f s e k = rw e refl
  at_front-ends (item ∷ queue) f s e k = k item (rw e refl)

  rerun_check-ends :
      (fuel : ℕ) (s : Scheduler)
      → s.func_trigger_timeout_map ≡ m
      → due now s.rerun_check_queue ≤ fuel
      → Holds (λ r. front_due now r.0.rerun_check_queue ≡ 0) (rerun_check st now fuel s)
  unfolding rerun_check ◌▷◌
  rerun_check-ends zero s same enough = omega (arith, enough, front_due-le_due s.rerun_check_queue)
  rerun_check-ends (suc fuel) s same enough =
      at_front-ends s.rerun_check_queue
        (λ item.
          if leb item.check_time now
          then rerun_item st now item ▷ rerun_check st now fuel
          else skip)
        s refl
        λ item first. elim (Bool-cases (leb item.check_time now)) [
          | inr h ↦ rw h (ground (arith, first, h))
          | inl h ↦ rw h (
              Holds-bind (λ r. Steps now m later st s r.0)
                (λ r. front_due now r.0.rerun_check_queue ≡ 0) (rerun_item st now item s) _
                (rerun_item-Steps now m later st item s same (ground (arith, first, h)))
                λ r p.
                  Holds-bind (λ q. front_due now q.0.rerun_check_queue ≡ 0)
                    (λ q. front_due now q.0.rerun_check_queue ≡ 0) (rerun_check st now fuel r.0) _
                    (rerun_check-ends fuel r.0 p.0 (omega (arith, p.1, enough))) (λ q d. d))
        ]

  -- A round for a first item that is due goes on as the rest of the loop does.
  round_same :
      (m' n' : Run Scheduler Effect) (item : RerunCheckQueueItem) (s : Scheduler)
      → Holds (λ r. m' r.0 ≡ n' r.0) (rerun_item st now item s)
      → (rerun_item st now item ▷ m') s ≡ (rerun_item st now item ▷ n') s
  unfolding ◌▷◌
  round_same m' n' item s h = elim (Option-cases (rerun_item st now item s)) [
    | inl e ↦ rw e refl
    | inr (r, e) ↦ rw (e, subst (Holds (λ x. m' x.0 ≡ n' x.0)) e h) refl
  ]

  -- A first item that is not due, or none, ends the loop.
  rerun_check-stops :
      (fuel : ℕ) (s : Scheduler)
      → front_due now s.rerun_check_queue ≡ 0
      → rerun_check st now fuel s ≡ some (s, [])
  unfolding rerun_check
  rerun_check-stops zero s h = refl
  rerun_check-stops (suc fuel) s h = go s.rerun_check_queue h
    where
      go :
          (queue : List RerunCheckQueueItem)
          → front_due now queue ≡ 0
          → at_front
              (get_elem? queue 0)
              (λ item.
                if leb item.check_time now
                then rerun_item st now item ▷ rerun_check st now fuel
                else skip)
              s
            ≡ some (s, [])
      go [] e = refl
      go (item ∷ queue) e = elim (Bool-cases (leb item.check_time now)) [
        | inl due ↦ absurd (ground (arith, due, e))
        | inr later ↦ rw later refl
      ]

  -- As many rounds as items that are due are as good as any more.
  rerun_check-enough :
      (fuel more : ℕ) (s : Scheduler)
      → s.func_trigger_timeout_map ≡ m
      → due now s.rerun_check_queue ≤ fuel
      → due now s.rerun_check_queue ≤ more
      → rerun_check st now fuel s ≡ rerun_check st now more s
  unfolding rerun_check
  rerun_check-enough zero more s same e e' =
      let stop : front_due now s.rerun_check_queue ≡ 0 =
        omega (arith, e, front_due-le_due s.rerun_check_queue) in
      sym (rerun_check-stops more s stop)
  rerun_check-enough (suc fuel) zero s same e e' =
      let stop : front_due now s.rerun_check_queue ≡ 0 =
        omega (arith, e', front_due-le_due s.rerun_check_queue) in
      unfold rerun_check in rerun_check-stops (suc fuel) s stop
  rerun_check-enough (suc fuel) (suc more) s same e e' =
      go s.rerun_check_queue refl
        (λ t p. rerun_check-enough fuel more t p.0 (omega (arith, p.1, e)) (omega (arith, p.1, e')))
    where
      go :
          (queue : List RerunCheckQueueItem)
          → s.rerun_check_queue ≡ queue
          → ((t : Scheduler)
              → Steps now m later st s t
              → rerun_check st now fuel t ≡ rerun_check st now more t)
          → at_front
              (get_elem? queue 0)
              (λ item.
                if leb item.check_time now
                then rerun_item st now item ▷ rerun_check st now fuel
                else skip)
              s
            ≡ at_front
                (get_elem? queue 0)
                (λ item.
                  if leb item.check_time now
                  then rerun_item st now item ▷ rerun_check st now more
                  else skip)
                s
      go [] q ih = refl
      go (item ∷ queue) q ih = elim (Bool-cases (leb item.check_time now)) [
        | inr later ↦ rw later refl
        | inl now_due ↦ rw now_due (
            round_same (rerun_check st now fuel) (rerun_check st now more) item s (
              Holds-both (λ r. Unit) (λ r. Steps now m later st s r.0)
                (λ r. rerun_check st now fuel r.0 ≡ rerun_check st now more r.0)
                (rerun_item st now item s) (Holds-trivial _)
                (rerun_item-Steps now m later st item s same
                  (ground (arith, ap (front_due now) q, now_due)))
                (λ r u p. ih r.0 p)))
      ]

due-le_length : (now : ℕ) (queue : List RerunCheckQueueItem) → due now queue ≤ length queue
due-le_length now [] = omega arith
due-le_length now (item ∷ queue) = ground (arith, due-le_length now queue)

-- Where every trigger that may have to be repeated has a timeout above 0, the loop over the reruns
-- comes to its end, in at most as many rounds as there are items at its start: more rounds change
-- nothing, and either one of the calls crashes, or the first item left, if one is left, is not due.
pub rerun_check-done :
    (st : Settings) (now fuel : ℕ) (s : Scheduler)
    → AllLater s.func_trigger_timeout_map
    → length s.rerun_check_queue ≤ fuel
    → (rerun_check st now fuel s ≡ rerun_check st now (length s.rerun_check_queue) s)
      × ((rerun_check st now (length s.rerun_check_queue) s ≡ none)
          ⊎ ((s' : Scheduler) × (effects : List Effect) × (rerun_check st now
                  (length s.rerun_check_queue)
                  s
                ≡ some (s', effects))
              × (front_due now s'.rerun_check_queue ≡ 0)))
rerun_check-done st now fuel s later enough =
    let all = due-le_length now s.rerun_check_queue in
    let m = s.func_trigger_timeout_map in
    (
      rerun_check-enough now m later st fuel (length s.rerun_check_queue) s refl
          (omega (arith, all, enough)) all,
      outcome (rerun_check st now (length s.rerun_check_queue) s)
          (rerun_check-ends now m later st (length s.rerun_check_queue) s refl all),
    )
  where
    outcome :
        (o : Option (Scheduler × List Effect))
        → Holds (λ r. front_due now r.0.rerun_check_queue ≡ 0) o
        → (o ≡ none)
          ⊎ ((s' : Scheduler) × (effects : List Effect) × (o ≡ some (s', effects))
              × (front_due now s'.rerun_check_queue ≡ 0))
    outcome none h = inl refl
    outcome (some (s', effects)) h = inr (s', effects, refl, h)
