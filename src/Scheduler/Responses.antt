-- ===== src/Scheduler/Responses.antt =====
-- scheduler_server.cpp, run(): what the communication helper has received. `now` is the time of the
-- clock.
use pheromone.Base.{
  ℕ, ◌+◌, ◌%◌, Bytes, Address, Session, List, [], ◌∷◌, ◌++◌, some, if◌then◌else◌, bytes_eq, nat_eq,
}
use pheromone.Base.Maps.{get, put, erase, has, get_or, is_empty}
use pheromone.Base.Sets
use pheromone.Base.Runs.{Run, skip, modify, ◌▷◌, each}
use pheromone.Common.{delimiter, kvs_key_prefix}
use pheromone.Common.Decimal.{to_string}
use pheromone.Scheduler.Types.{
  Scheduler, Settings, Effect, send_data_req, InflightIoRequest, InflightFuncArgs, RecvMsg, call,
  data_resp, kvs_get_resp, kvs_put_resp,
}
use pheromone.Scheduler.Forward.{is_positive}
use pheromone.Scheduler.Schedule.{send_to, schedule_func_call}
use pheromone.Scheduler.Arrivals.{with_lengths}
use pheromone.Scheduler.Objects.{response}

-- One argument of a call that is given by keys: a key whose object is not here is asked for, unless
-- some call waits for it already.
unfoldable pub fetch_arg :
    ℕ
    → Bytes
    → InflightFuncArgs × Scheduler × List Effect
    → InflightFuncArgs × Scheduler × List Effect
fetch_arg cid key (inflight, s, effects) =
    let inflight' = record inflight { key_args = inflight.key_args ++ key ∷ [] } in
    let ids = get s.key_call_id_map key in
    if has s.key_len_map key then (inflight', s, effects) else (
      record inflight' { inflight_args = Sets.insert inflight'.inflight_args key },
      record s { key_call_id_map = put s.key_call_id_map key (Sets.insert (get_or ids []) cid) },
      effects ++ (if has s.key_call_id_map key then [] else send_data_req key ∷ []),
    )

unfoldable pub fetch_args :
    ℕ
    → List Bytes
    → InflightFuncArgs × Scheduler × List Effect
    → InflightFuncArgs × Scheduler × List Effect
unfolding fetch_arg
fetch_args cid [] r = r
fetch_args cid (key ∷ keys) r = fetch_args cid keys (fetch_arg cid key r)

abbrev pub no_args : Bytes → Session → ℕ → InflightFuncArgs
no_args func session arg_flag = record {
  func_name = func;
  session_id = session;
  key_args = [];
  inflight_args = [];
  arg_flag = arg_flag;
}

-- unsigned, so that it starts again at 0
abbrev pub next_call : Scheduler → Scheduler
next_call s = record s { call_id = (s.call_id + 1) % 4294967296 }

-- What map::operator[] makes.
abbrev pub no_call : InflightFuncArgs
no_call = no_args [] [] 0

abbrev pub without : Bytes → InflightFuncArgs → InflightFuncArgs
without key inflight = record inflight { inflight_args = Sets.erase inflight.inflight_args key }

abbrev pub set_inflight : ℕ → InflightFuncArgs → Scheduler → Scheduler
set_inflight cid inflight s = record s {
  call_id_inflight_args_map = put s.call_id_inflight_args_map cid inflight;
}

module _ (st : Settings) (now : ℕ) where
  -- The call starts, its keys with the lengths of their objects.
  unfoldable pub start_with_lengths : Bytes → InflightFuncArgs → Run Scheduler Effect
  unfolding schedule_func_call
  start_with_lengths app_name inflight s =
      let (args, lens) = with_lengths inflight.key_args s.key_len_map in
      schedule_func_call st now inflight.session_id app_name inflight.func_name args
        inflight.arg_flag (record s { key_len_map = lens })

  unfoldable pub call_on_keys : Session → Bytes → Bytes → List Bytes → ℕ → Run Scheduler Effect
  unfolding fetch_args start_with_lengths
  call_on_keys session app_name func args arg_flag s =
      let (inflight, s', effects) =
        fetch_args s.call_id args (no_args func session arg_flag, s, []) in
      ((λ t. some (t, effects))
          ▷ (if is_empty inflight.inflight_args
              then start_with_lengths app_name inflight
              else modify (λ t. record t {
                call_id_inflight_args_map = put t.call_id_inflight_args_map t.call_id inflight;
              })))
        s'

  unfoldable pub receive_call : Session → Bytes → Bytes × List Bytes × ℕ → Run Scheduler Effect
  unfolding call_on_keys schedule_func_call
  receive_call session app_name (func, args, arg_flag) =
      (if is_positive arg_flag
        then call_on_keys session app_name func args arg_flag
        else schedule_func_call st now session app_name func args 0)
      ▷ modify next_call

  unfoldable pub receive_calls :
      Bytes → Address → Session → List (Bytes × List Bytes × ℕ) → Run Scheduler Effect
  unfolding receive_call
  receive_calls app_name client session calls =
      modify
        (λ s. record s { session_client_addr_map = put s.session_client_addr_map session client })
      ▷ each (receive_call session app_name) calls

  -- Every executor that waits for the object gets the response.
  abbrev pub answer_all : Bytes → List InflightIoRequest → Run Scheduler Effect
  answer_all value = each (λ r. send_to st r.executor_id (response r.req_id value))

  unfoldable pub answer_remote_gets : Bytes → Bytes → Run Scheduler Effect
  unfolding send_to
  answer_remote_gets key value s =
      (answer_all value (get_or (get s.key_remote_get_map key) [])
          ▷ modify (λ t. record t { key_remote_get_map = erase t.key_remote_get_map key }))
        s

  -- A call that has all its arguments starts, and waits no longer.
  unfoldable pub start_if_ready : ℕ → InflightFuncArgs → Run Scheduler Effect
  unfolding start_with_lengths
  start_if_ready cid inflight s =
      (if is_empty inflight.inflight_args
          then start_with_lengths (get_or (get s.func_app_map inflight.func_name) []) inflight
            ▷ modify (λ t. record t {
              call_id_inflight_args_map = erase t.call_id_inflight_args_map cid;
            })
          else skip)
        s

  -- A waiting call has one argument less to wait for. For a call that is not there operator[] makes
  -- one without a name.
  unfoldable pub argument_arrived : Bytes → ℕ → Run Scheduler Effect
  unfolding start_if_ready
  argument_arrived key cid s =
      let inflight = without key (get_or (get s.call_id_inflight_args_map cid) no_call) in
      start_if_ready cid inflight (set_inflight cid inflight s)

  unfoldable pub start_waiting : Bytes → Run Scheduler Effect
  unfolding argument_arrived
  start_waiting key s =
      (each (argument_arrived key) (get_or (get s.key_call_id_map key) [])
          ▷ modify (λ t. record t { key_call_id_map = erase t.key_call_id_map key }))
        s

  -- The size is one character of the response to an executor.
  unfoldable pub receive_data : Bytes → ℕ → Run Scheduler Effect
  unfolding answer_remote_gets start_waiting
  receive_data key size =
      modify (λ s. record s { key_len_map = put s.key_len_map key size })
      ▷ answer_remote_gets key ((size % 256) ∷ [])
      ▷ start_waiting key

  unfoldable pub receive_kvs_get : Bytes → ℕ → Run Scheduler Effect
  unfolding answer_remote_gets
  receive_kvs_get key size =
      let name = kvs_key_prefix ++ (delimiter ++ key) in
      modify (λ s. record s { key_len_map = put s.key_len_map name size })
      ▷ answer_remote_gets name (to_string size)

  unfoldable pub receive_kvs_put : Bytes → Run Scheduler Effect
  unfolding send_to
  receive_kvs_put key s =
      (answer_all [] (get_or (get s.key_ksv_put_map key) [])
          ▷ modify (λ t. record t { key_ksv_put_map = erase t.key_ksv_put_map key }))
        s

  unfoldable pub receive : RecvMsg → Run Scheduler Effect
  unfolding receive_calls receive_data receive_kvs_get receive_kvs_put
  receive (call app_name client session calls) = receive_calls app_name client session calls
  receive (data_resp key size) = receive_data key size
  receive (kvs_get_resp key size) = receive_kvs_get key size
  receive (kvs_put_resp key) = receive_kvs_put key
