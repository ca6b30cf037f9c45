-- ===== src/Scheduler/Reruns.antt =====
-- scheduler_server.cpp: a call that is repeated adds no rerun that is due.
pub mod Ends
use mathlib.Core.Path.{subst}
use pheromone.Base.{
  ap, ◌>>=◌, ℕ, zero, suc, ◌+◌, ◌≤◌, ◌<◌, ◌≡◌, refl, sym, Bytes, Session, List, [], ◌∷◌, ◌++◌,
  Option, none, some, All, Holds, Holds-bind, Holds-if, Holds-both, Holds-trivial, Holds-assume,
  bytes_eq, leb, ltb, length, get_elem?, if◌then◌else◌, arith, Bool-cases, inl, inr,
}
use pheromone.Base.Maps.{Map, get, get_or}
use pheromone.Base.Runs.{
  Run, skip, crash, emit, given, ◌▷◌, each, Keeps, Keeps-then, Keeps-each, Keeps-if, Keeps-given,
}
use pheromone.Trigger.Dispatch.{action_for_rerun}
use pheromone.Trigger.Types.{TriggerFunctionMetadata}
use pheromone.Scheduler.Types.{
  Scheduler, Settings, Effect, RerunCheckQueueItem, RerunTriggerTimeout, send_to_executer,
}
use pheromone.Scheduler.Forward.{
  forward_call_via_helper, pack, forward_data_packing_threshold, total_data_size, is_positive,
}
use pheromone.Scheduler.Schedule.{
  push_rerun, send_to, assign, start_on, postpone, place, schedule_func_call, note_rerun, update_at,
  forward_args,
}
use pheromone.Scheduler.Queues.{pop, at_front, rerun_item, rerun_check, rerun_call}

abbrev pub Timeouts : Type 0
Timeouts = Map Bytes (List RerunTriggerTimeout)

abbrev IsLater : RerunTriggerTimeout → Type 0
IsLater r = 0 < r.timeout

-- Every trigger that has a timeout has one above 0.
abbrev pub AllLater : Timeouts → Type 0
AllLater m = (func : Bytes) → All IsLater (get_or (get m func) [])

module _ (now : ℕ) where
  abbrev pub is_due : RerunCheckQueueItem → ℕ
  is_due item = if leb item.check_time now then 1 else 0

  -- The items that are due, and whether the first one is.
  abbrev pub due : List RerunCheckQueueItem → ℕ
  due [] = 0
  due (item ∷ queue) = is_due item + due queue

  abbrev pub front_due : List RerunCheckQueueItem → ℕ
  front_due [] = 0
  front_due (item ∷ queue) = is_due item

  due-push_rerun :
      (item : RerunCheckQueueItem) (queue : List RerunCheckQueueItem)
      → now < item.check_time
      → (due (push_rerun item queue) ≡ due queue)
        × (front_due queue ≤ front_due (push_rerun item queue))
  unfolding push_rerun
  due-push_rerun item [] later = (ground arith, omega arith)
  due-push_rerun item (x ∷ queue) later =
      (ground (arith, due-push_rerun item queue later), ground arith)

  module _ (m : Timeouts) (later : AllLater m) where
    -- With the timeouts as they are, no more items are due, and the first one stays if it is.
    abbrev Calm : Scheduler → Scheduler → List Effect → Type 0
    Calm s t effects =
        s.func_trigger_timeout_map ≡ m
        → (t.func_trigger_timeout_map ≡ m)
          × (due t.rerun_check_queue ≡ due s.rerun_check_queue)
          × (front_due s.rerun_check_queue ≤ front_due t.rerun_check_queue)

    Calm-joins :
        (s t u : Scheduler) (xs ys : List Effect) → Calm s t xs → Calm t u ys → Calm s u (xs ++ ys)
    Calm-joins s t u xs ys p q same =
        let (a, b, c) = p same in
        let (a', b', c') = q a in (a', omega (arith, b, b'), omega (arith, c, c'))

    Calm-still : (s : Scheduler) → Calm s s []
    Calm-still s same = (same, refl, omega arith)

    note_rerun-Calm :
        (session : Session) (meta : TriggerFunctionMetadata) (r : RerunTriggerTimeout)
        (s : Scheduler)
        → IsLater r
        → Keeps Calm s (note_rerun now session meta r)
    unfolding note_rerun
    note_rerun-Calm session meta r s h =
        Holds-bind {B = Scheduler × List Effect} (λ x. Unit) (λ x. Calm s x.0 x.1)
          (update_at r.trigger_ptr _ s.triggers) _ (Holds-trivial _)
          λ ts u same.
            let (all, front) = due-push_rerun _ s.rerun_check_queue (omega (arith, h)) in
            (same, all, front)

    each_note-Calm :
        (session : Session) (meta : TriggerFunctionMetadata) (rs : List RerunTriggerTimeout)
        (s : Scheduler)
        → All IsLater rs
        → Keeps Calm s (each (note_rerun now session meta) rs)
    unfolding each
    each_note-Calm session meta [] s h = Calm-still s
    each_note-Calm session meta (r ∷ rs) s h =
        Keeps-then Calm Calm-still Calm-joins (note_rerun now session meta r) _ s
          (note_rerun-Calm session meta r s h.0) (λ t. each_note-Calm session meta rs t h.1)

    module _ (st : Settings) where
      Calm-emit : (e : Effect) (s : Scheduler) → Keeps Calm s (emit e)
      Calm-emit e s = Calm-still s

      assign-Calm : (id : ℕ) (msg : Bytes) (s : Scheduler) → Keeps Calm s (assign st now id msg)
      unfolding assign send_to
      assign-Calm id msg s =
          Keeps-then Calm Calm-still Calm-joins _ _ s
            (Keeps-if Calm (ltb id st.executor_num) (emit (send_to_executer id msg)) crash s
              (Calm-still s) tt)
            (λ t. Calm-still t)

      start_on-Calm :
          (id : ℕ) (session : Session) (func : Bytes) (args : List Bytes) (arg_flag : ℕ)
          (s : Scheduler)
          → Keeps Calm s (start_on st now id session func args arg_flag)
      unfolding start_on
      start_on-Calm id session func args arg_flag s =
          let rs = get_or (get s.func_trigger_timeout_map func) [] in
          Holds-assume (s.func_trigger_timeout_map ≡ m) _ _ λ same.
            Holds-both (λ r. Unit) (λ r. Calm s r.0 r.1) _ _ (Holds-trivial _)
              (Keeps-then Calm Calm-still Calm-joins _ _ s (assign-Calm id _ s) (λ t.
                each_note-Calm session _ rs t
                  (subst (λ n. All IsLater (get_or (get n func) [])) (sym same) (later func))))
              (λ r u p. p same)

      forward_call-Calm :
          (session : Session) (app_name : Bytes) (names : List Bytes) (args : List (List Bytes))
          (arg_flag : ℕ) (s : Scheduler)
          → Keeps Calm s (forward_call_via_helper st session app_name names args arg_flag)
      unfolding forward_call_via_helper pack
      forward_call-Calm session app_name names args arg_flag s =
          Keeps-if Calm (is_positive arg_flag) _ _ s
            (Keeps-given Calm (total_data_size args) _ s (λ total.
              Holds-if (λ x. Calm s x.0 x.1) (ltb total forward_data_packing_threshold) _ _
                (Calm-still s) (Calm-still s)))
            (Calm-still s)

      postpone-Calm :
          (session : Session) (app_name func : Bytes) (args : List Bytes) (arg_flag : ℕ)
          (s : Scheduler)
          → Keeps Calm s (postpone st now session app_name func args arg_flag)
      unfolding postpone
      postpone-Calm session app_name func args arg_flag s =
          Keeps-if Calm (ltb 0 st.sched_delay_time) _ _ s (Calm-still s) (
            Keeps-if Calm st.reject_extra_req skip _ s (Calm-still s) (
              Keeps-given Calm (forward_args arg_flag args) _ s
                (λ a. forward_call-Calm session app_name (func ∷ []) (a ∷ []) arg_flag s)))

      place-Calm :
          (session : Session) (app_name func : Bytes) (args : List Bytes) (arg_flag seed : ℕ)
          (warm chosen : Option ℕ) (s : Scheduler)
          → Keeps Calm s (place st now session app_name func args arg_flag seed warm chosen)
      unfolding place
      place-Calm session app_name func args arg_flag seed warm none s =
          postpone-Calm session app_name func args arg_flag s
      place-Calm session app_name func args arg_flag seed warm (some id) s =
          start_on-Calm id session func args arg_flag _

      schedule_func_call-Calm :
          (session : Session) (app_name func : Bytes) (args : List Bytes) (arg_flag : ℕ)
          (s : Scheduler)
          → Keeps Calm s (schedule_func_call st now session app_name func args arg_flag)
      unfolding schedule_func_call
      schedule_func_call-Calm session app_name func args arg_flag s =
          place-Calm session app_name func args arg_flag _ _ _ s

      -- The calls of an item that is due leave one item less that is due.
      abbrev pub Steps : Scheduler → Scheduler → Type 0
      Steps s t =
          (t.func_trigger_timeout_map ≡ m)
          × (suc (due t.rerun_check_queue) ≡ due s.rerun_check_queue)

      pop-due :
          (queue : List RerunCheckQueueItem)
          → 1 ≤ front_due queue
          → suc (due (pop queue)) ≡ due queue
      pop-due [] h = absurd (omega (arith, h))
      pop-due (item ∷ queue) h = ground (arith, h)

      pub rerun_item-Steps :
          (item : RerunCheckQueueItem) (s : Scheduler)
          → s.func_trigger_timeout_map ≡ m
          → 1 ≤ front_due s.rerun_check_queue
          → Holds (λ r. Steps s r.0) (rerun_item st now item s)
      unfolding rerun_item ◌▷◌
      rerun_item-Steps item s same front =
          Holds-bind {B = Scheduler × List Effect} (λ r. Calm s r.0 r.1) (λ r. Steps s r.0)
            (given (get_elem? s.triggers item.trigger_ptr)
              (λ t. each (rerun_call st now item) (action_for_rerun t item.session)) s)
            _
            (Keeps-given Calm (get_elem? s.triggers item.trigger_ptr) _ s (λ t.
              Keeps-each Calm Calm-still Calm-joins (rerun_call st now item)
                (action_for_rerun t item.session) s
                (λ c u.
                  schedule_func_call-Calm item.session _ c.func_name c.func_args c.arg_flag u)))
            λ r p.
              let (kept, all, first) = p same in
              (
                kept,
                omega (arith, all, pop-due r.0.rerun_check_queue (omega (arith, first, front))),
              )
