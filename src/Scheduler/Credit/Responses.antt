-- ===== src/Scheduler/Credit/Responses.antt =====
-- scheduler_server.cpp: what the communication helper returns leads to a call on an executor only
-- when it is free.
use pheromone.Base.{
  ℕ, ◌≡◌, refl, Bytes, Session, Bool, true, false, List, [], ◌∷◌, some, arith, bytes_eq, nat_eq,
  if◌then◌else◌,
}
use pheromone.Base.Maps.{get, get_or, has, is_empty}
use pheromone.Base.Runs.{Run, skip, modify, ◌▷◌, Keeps-if}
use pheromone.Scheduler.Types.{
  Scheduler, Settings, Effect, send_data_req, InflightIoRequest, InflightFuncArgs, RecvMsg, call,
  data_resp, kvs_get_resp, kvs_put_resp,
}
use pheromone.Scheduler.Forward.{is_positive}
use pheromone.Scheduler.Arrivals.{with_lengths}
use pheromone.Scheduler.Responses.{
  fetch_arg, fetch_args, no_args, start_with_lengths, call_on_keys, receive_call, receive_calls,
  answer_all, answer_remote_gets, argument_arrived, start_if_ready, without, set_inflight,
  start_waiting, receive_data, receive_kvs_get, receive_kvs_put, receive, no_call,
}
use pheromone.Scheduler.Credit.{Spends, Spends-quiet, calls_to, calls_to-append}
use pheromone.Scheduler.Credit.Moves.{
  IsFair, IsFair-then, IsFair-each, IsFair-from, schedule_func_call-IsFair, send_to-IsFair,
}

module _ (e : ℕ) where
  -- A look up of arguments leaves the executors alone and asks for objects only.
  abbrev IsLookup : Scheduler → InflightFuncArgs × Scheduler × List Effect → Type 0
  IsLookup s (inflight, t, effects) =
      (t.executor_status_map ≡ s.executor_status_map) × (calls_to e effects ≡ 0)

  IsLookup-if :
      (s : Scheduler) (b : Bool) (x y : InflightFuncArgs × Scheduler × List Effect)
      → IsLookup s x
      → IsLookup s y
      → IsLookup s (if b then x else y)
  IsLookup-if s true x y h k = h
  IsLookup-if s false x y h k = k

  fetch_arg-IsLookup :
      (cid : ℕ) (key : Bytes) (s : Scheduler) (r : InflightFuncArgs × Scheduler × List Effect)
      → IsLookup s r
      → IsLookup s (fetch_arg cid key r)
  unfolding fetch_arg
  fetch_arg-IsLookup cid key s (inflight, t, effects) (same, none_sent) =
      IsLookup-if s (has t.key_len_map key) _ _ (same, none_sent)
        (
          same,
          ground (
            arith,
            calls_to-append e effects [],
            calls_to-append e effects (send_data_req key ∷ []),
            none_sent,
          ),
        )

  fetch_args-IsLookup :
      (cid : ℕ) (keys : List Bytes) (s : Scheduler) (r : InflightFuncArgs × Scheduler × List Effect)
      → IsLookup s r
      → IsLookup s (fetch_args cid keys r)
  unfolding fetch_args
  fetch_args-IsLookup cid [] s r h = h
  fetch_args-IsLookup cid (key ∷ keys) s r h =
      fetch_args-IsLookup cid keys s (fetch_arg cid key r) (fetch_arg-IsLookup cid key s r h)

  module _ (st : Settings) (now : ℕ) where
    start_with_lengths-IsFair :
        (app_name : Bytes) (inflight : InflightFuncArgs) (s : Scheduler)
        → IsFair e s (start_with_lengths st now app_name inflight)
    unfolding start_with_lengths
    start_with_lengths-IsFair app_name inflight s =
        let (args, lens) = with_lengths inflight.key_args s.key_len_map in
        schedule_func_call-IsFair e st now inflight.session_id app_name inflight.func_name args
          inflight.arg_flag (record s { key_len_map = lens })

    call_on_keys-IsFair :
        (session : Session) (app_name func : Bytes) (args : List Bytes) (arg_flag : ℕ)
        (s : Scheduler)
        → IsFair e s (call_on_keys st now session app_name func args arg_flag)
    unfolding call_on_keys
    call_on_keys-IsFair session app_name func args arg_flag s =
        let start : InflightFuncArgs × Scheduler × List Effect =
          (no_args func session arg_flag, s, []) in
        let (inflight, s', effects) = fetch_args s.call_id args start in
        let look = fetch_args-IsLookup s.call_id args s start (refl, refl) in
        let note : Run Scheduler Effect = λ t. some (t, effects) in
        let rest : Run Scheduler Effect =
          if is_empty inflight.inflight_args
          then start_with_lengths st now app_name inflight
          else modify (λ t. set_inflight t.call_id inflight t) in
        IsFair-from e s s' (note ▷ rest) look.0 (
          IsFair-then e note rest s' (Spends-quiet e s' s' effects refl look.1) λ t.
            Keeps-if (Spends e) (is_empty inflight.inflight_args) _
              (modify (λ t. set_inflight t.call_id inflight t)) t
              (start_with_lengths-IsFair app_name inflight t) (λ d. (d, omega arith)))

    receive_call-IsFair :
        (session : Session) (app_name : Bytes) (c : Bytes × List Bytes × ℕ) (s : Scheduler)
        → IsFair e s (receive_call st now session app_name c)
    unfolding receive_call
    receive_call-IsFair session app_name (func, args, arg_flag) s =
        IsFair-then e _ _ s
          (Keeps-if (Spends e) (is_positive arg_flag) _ _ s
            (call_on_keys-IsFair session app_name func args arg_flag s)
            (schedule_func_call-IsFair e st now session app_name func args 0 s))
          (λ t d. (d, omega arith))

    answer_all-IsFair :
        (value : Bytes) (requests : List InflightIoRequest) (s : Scheduler)
        → IsFair e s (answer_all st now value requests)
    answer_all-IsFair value requests s =
        IsFair-each e _ requests s (λ r t. send_to-IsFair e st now r.executor_id _ t refl)

    answer_remote_gets-IsFair :
        (key value : Bytes) (s : Scheduler) → IsFair e s (answer_remote_gets st now key value)
    unfolding answer_remote_gets
    answer_remote_gets-IsFair key value s =
        IsFair-then e _ _ s (answer_all-IsFair value _ s) (λ t d. (d, omega arith))

    start_if_ready-IsFair :
        (cid : ℕ) (inflight : InflightFuncArgs) (s : Scheduler)
        → IsFair e s (start_if_ready st now cid inflight)
    unfolding start_if_ready
    start_if_ready-IsFair cid inflight s =
        Keeps-if (Spends e) (is_empty inflight.inflight_args) _ skip s
          (IsFair-then e _ _ s (start_with_lengths-IsFair _ inflight s) (λ t d. (d, omega arith)))
          (λ d. (d, omega arith))

    argument_arrived-IsFair :
        (key : Bytes) (cid : ℕ) (s : Scheduler) → IsFair e s (argument_arrived st now key cid)
    unfolding argument_arrived
    argument_arrived-IsFair key cid s =
        let inflight = without key (get_or (get s.call_id_inflight_args_map cid) no_call) in
        start_if_ready-IsFair cid inflight (set_inflight cid inflight s)

    start_waiting-IsFair : (key : Bytes) (s : Scheduler) → IsFair e s (start_waiting st now key)
    unfolding start_waiting
    start_waiting-IsFair key s =
        IsFair-then e _ _ s (IsFair-each e _ _ s (λ cid t. argument_arrived-IsFair key cid t))
          (λ t d. (d, omega arith))

    pub receive-IsFair : (msg : RecvMsg) (s : Scheduler) → IsFair e s (receive st now msg)
    unfolding receive receive_calls receive_data receive_kvs_get receive_kvs_put
    receive-IsFair (call app_name client session calls) s =
        IsFair-then e _ _ s (λ d. (d, omega arith))
          (λ t. IsFair-each e _ calls t (λ c u. receive_call-IsFair session app_name c u))
    receive-IsFair (data_resp key size) s =
        IsFair-then e _ _ s (λ d. (d, omega arith))
          (λ t. IsFair-then e _ _ t (answer_remote_gets-IsFair key _ t) (start_waiting-IsFair key))
    receive-IsFair (kvs_get_resp key size) s =
        IsFair-then e _ _ s (λ d. (d, omega arith)) (answer_remote_gets-IsFair _ _)
    receive-IsFair (kvs_put_resp key) s =
        IsFair-then e _ _ s (answer_all-IsFair [] _ s) (λ t d. (d, omega arith))
