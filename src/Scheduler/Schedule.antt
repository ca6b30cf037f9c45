-- ===== src/Scheduler/Schedule.antt =====
-- scheduler_server.cpp: schedule_func_call. `now` is the time of the clock.
use pheromone.Base.{
  ℕ, zero, suc, ◌+◌, ◌*◌, ◌%◌, Bytes, Session, Bool, true, false, ◌&&◌, List, [], ◌∷◌, ◌++◌, Option,
  some, none, ltb, leb, if◌then◌else◌, ◌>>=◌, bytes_eq, nat_eq, length, get_elem?,
}
use pheromone.Base.Sets.{contains, insert}
use pheromone.Base.Maps.{Map, get, put, get_or, is_empty}
use pheromone.Base.Runs.{Run, skip, crash, emit, modify, given, ◌▷◌, each}
use pheromone.Common.{delimiter_char, delimiter}
use pheromone.Common.Split.{split}
use pheromone.Trigger.Dispatch.{Trigger, notify_source_func}
use pheromone.Trigger.Types.{TriggerFunctionMetadata}
use pheromone.Scheduler.Types.{
  Scheduler, Settings, Effect, send_to_executer, await, RerunCheckQueueItem, RerunTriggerTimeout,
}
use pheromone.Scheduler.Statuses.{find_executors}
use pheromone.Scheduler.Forward.{forward_call_via_helper, is_positive, client_of}

-- executor_chans_map has a channel for every executor; another one is a null pointer.
unfoldable pub send_to : Settings → ℕ → Bytes → Run Scheduler Effect
send_to st id msg = if ltb id st.executor_num then emit (send_to_executer id msg) else crash

abbrev pub joined : List Bytes → Bytes
joined [] = []
joined (arg ∷ args) = delimiter ++ (arg ++ joined args)

-- 1 means function call; the flag of the arguments; 1 if the output is persisted, 2 if a client
-- waits.
unfoldable pub call_message : Session → Bytes → List Bytes → ℕ → Scheduler → Bytes
call_message session func args arg_flag s =
    1
    ∷ ((arg_flag + 1) % 256)
    ∷ (if is_empty (client_of session s) then 1 else 2)
    ∷ (session ++ (delimiter ++ (func ++ joined args)))

-- The queue is in the order of check_time; of equal times the one that came first is first.
unfoldable pub push_rerun :
    RerunCheckQueueItem → List RerunCheckQueueItem → List RerunCheckQueueItem
push_rerun item [] = item ∷ []
push_rerun item (x ∷ queue) =
    if leb x.check_time item.check_time then x ∷ push_rerun item queue else item ∷ x ∷ queue

-- The trigger that the pointer is for.
unfoldable pub update_at : ℕ → (Trigger → Trigger) → List Trigger → Option (List Trigger)
update_at i f [] = none
update_at zero f (t ∷ ts) = some (f t ∷ ts)
update_at (suc i) f (t ∷ ts) = update_at i f ts >>= λ ts'. some (t ∷ ts')

unfoldable pub note_rerun :
    ℕ → Session → TriggerFunctionMetadata → RerunTriggerTimeout → Run Scheduler Effect
unfolding push_rerun update_at
note_rerun now session meta r s =
    update_at r.trigger_ptr (λ t. notify_source_func t session meta) s.triggers >>= λ ts. some (
      record s {
        triggers = ts;
        rerun_check_queue =
            push_rerun
              (record {
                check_time = now + r.timeout * 1000000;
                session = session;
                trigger_ptr = r.trigger_ptr;
              })
              s.rerun_check_queue;
      },
      [],
    )

-- Every argument with a delimiter is split.
unfoldable pub flatten : List Bytes → List Bytes
flatten [] = []
flatten (arg ∷ args) =
    (if contains arg delimiter_char then split arg delimiter_char else arg ∷ []) ++ flatten args

abbrev flatten_if : Bool → List Bytes → List Bytes
flatten_if true args = flatten args
flatten_if false args = args

-- func_args[0] is out of range for a call on keys without arguments.
unfoldable pub forward_args : ℕ → List Bytes → Option (List Bytes)
unfolding flatten
forward_args arg_flag [] = if is_positive arg_flag then none else some []
forward_args arg_flag (first ∷ args) =
    some (flatten_if (is_positive arg_flag && contains first delimiter_char) (first ∷ args))

-- The warm executor, or a cold one at random.
abbrev pub pick : ℕ → Option ℕ × List ℕ → Option ℕ
pick r (some id, cold) = some id
pick r (none, cold) = get_elem? cold (r % length cold)

-- A cold executor that is picked will be warm for the function.
abbrev pub warmed : Option ℕ → ℕ → Bytes → Map Bytes (List ℕ) → Map Bytes (List ℕ)
warmed (some warm) id func m = m
warmed none id func m = put m func (insert (get_or (get m func) []) id)

module _ (st : Settings) (now : ℕ) where
  -- The executor is sent the call and awaited.
  unfoldable pub assign : ℕ → Bytes → Run Scheduler Effect
  unfolding send_to
  assign id msg =
      send_to st id msg
      ▷ modify (λ s. record s { executor_status_map = put s.executor_status_map id await })

  -- The triggers that may have to repeat the call are told.
  unfoldable pub start_on : ℕ → Session → Bytes → List Bytes → ℕ → Run Scheduler Effect
  unfolding assign call_message note_rerun
  start_on id session func args arg_flag s =
      (assign id (call_message session func args arg_flag s)
          ▷ each
              (note_rerun now session
                (record { func_name = func; func_args = args; arg_flag = arg_flag }))
              (get_or (get s.func_trigger_timeout_map func) []))
        s

  -- No executor is free: the call waits, is sent to the coordinator, or is dropped.
  unfoldable pub postpone : Session → Bytes → Bytes → List Bytes → ℕ → Run Scheduler Effect
  unfolding forward_args forward_call_via_helper
  postpone session app_name func args arg_flag =
      if ltb 0 st.sched_delay_time
      then modify (λ s. record s {
        delay_call_queue =
            s.delay_call_queue
            ++ record {
              session_id = session;
              app_name = app_name;
              func_name = func;
              func_args = args;
              arg_flag = arg_flag;
              trigger_time = now;
            }
              ∷ [];
      })
      else if st.reject_extra_req
      then skip
      else given (forward_args arg_flag args)
          (λ a. forward_call_via_helper st session app_name (func ∷ []) (a ∷ []) arg_flag)

  -- `warm` is the warm executor that was found, `chosen` the executor of the call.
  unfoldable pub place :
      Session → Bytes → Bytes → List Bytes → ℕ → ℕ → Option ℕ → Option ℕ → Run Scheduler Effect
  unfolding start_on postpone
  place session app_name func args arg_flag seed warm none s =
      postpone session app_name func args arg_flag s
  place session app_name func args arg_flag seed warm (some id) s =
      start_on id session func args arg_flag (record s {
        ram_seed = seed;
        function_executor_map = warmed warm id func s.function_executor_map;
      })

  unfoldable pub schedule_func_call :
      Session → Bytes → Bytes → List Bytes → ℕ → Run Scheduler Effect
  unfolding find_executors place
  schedule_func_call session app_name func args arg_flag s =
      let warm = get_or (get s.function_executor_map func) [] in
      let found = find_executors st.shared_executor warm s.executor_status_map in
      let (r, seed) = st.rand_r s.ram_seed in
      place session app_name func args arg_flag seed found.0 (pick r found) s
