-- ===== src/Scheduler/Delayed.antt =====
-- scheduler_server.cpp: no call is lost on its way through schedule_func_call and the queue of
-- delayed calls.
pub mod Places
pub mod Passes
use pheromone.Base.{
  ℕ, ◌+◌, ◌≡◌, refl, Bytes, Session, Bool, List, [], ◌∷◌, ◌++◌, Option, some, arith, if◌then◌else◌,
}
use pheromone.Scheduler.Types.{Scheduler, Settings, Effect, send_to_executer, DelayFunctionCall}
use pheromone.Scheduler.Forward.{forward_call_via_helper}
use pheromone.Scheduler.Schedule.{call_message, forward_args}

-- A call without the time from which it waits.
abbrev pub Request : Type 0
Request = Session × Bytes × Bytes × List Bytes × ℕ

abbrev pub request_of : DelayFunctionCall → Request
request_of c = (c.session_id, c.app_name, c.func_name, c.func_args, c.arg_flag)

-- How many of the calls have the property.
abbrev pub times : (Request → Bool) → List DelayFunctionCall → ℕ
times p [] = 0
times p (c ∷ cs) = (if p (request_of c) then 1 else 0) + times p cs

pub times-append :
    (p : Request → Bool) (xs ys : List DelayFunctionCall)
    → times p (xs ++ ys) ≡ times p xs + times p ys
times-append p [] ys = omega arith
times-append p (x ∷ xs) ys = omega (arith, times-append p xs ys)

module _ (st : Settings) where
  -- What starts a call: its message is sent to an executor, or the helper forwards it, alone, with its
  -- arguments or with what forward_args makes of them.
  pub data IsCallOf (c : DelayFunctionCall) : Effect → Type 0 where
    to_executor :
        (id : ℕ) (s : Scheduler)
        → IsCallOf c
            (send_to_executer id (call_message c.session_id c.func_name c.func_args c.arg_flag s))
    forwarded :
        (s s' : Scheduler) (e : Effect)
        → forward_call_via_helper st c.session_id c.app_name
            (c.func_name ∷ [])
            (c.func_args ∷ [])
            c.arg_flag
            s
          ≡ some (s', e ∷ [])
        → IsCallOf c e
    forwarded_flat :
        (args : List Bytes) (s s' : Scheduler) (e : Effect)
        → forward_args c.arg_flag c.func_args ≡ some args
        → forward_call_via_helper st c.session_id c.app_name
            (c.func_name ∷ [])
            (args ∷ [])
            c.arg_flag
            s
          ≡ some (s', e ∷ [])
        → IsCallOf c e

  -- The effects start the calls, one each, in their order.
  abbrev pub AreCalls : List DelayFunctionCall → List Effect → Type 0
  AreCalls [] [] = Unit
  AreCalls [] (e ∷ effects) = ⊥
  AreCalls (c ∷ cs) [] = ⊥
  AreCalls (c ∷ cs) (e ∷ effects) = IsCallOf c e × AreCalls cs effects

  pub AreCalls-append :
      (cs ds : List DelayFunctionCall) (es fs : List Effect)
      → AreCalls cs es
      → AreCalls ds fs
      → AreCalls (cs ++ ds) (es ++ fs)
  AreCalls-append [] ds [] fs p q = q
  AreCalls-append [] ds (e ∷ es) fs p q = absurd p
  AreCalls-append (c ∷ cs) ds [] fs p q = absurd p
  AreCalls-append (c ∷ cs) ds (e ∷ es) fs p q = (p.0, AreCalls-append cs ds es fs p.1 q)
