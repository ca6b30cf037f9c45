-- ===== src/Scheduler/Tests.antt =====
-- The scheduler on concrete messages.
use pheromone.Base.{
  none, ◌⊎◌, Bool, length, ℕ, suc, ◌+◌, ◌≤◌, ◌≡◌, refl, Bytes, bytes, true, false, List, [], ◌∷◌,
  ◌++◌, some, none, arith, bytes_eq,
}
use pheromone.Base.Maps.{Map, get, put, get_or}
use pheromone.Base.Runs.{◌▷◌, each}
use pheromone.Trigger.Immediate
use pheromone.Trigger.Dispatch.{Trigger, make, immediate_state, notify_source_func}
use pheromone.Trigger.Primitives.Samples.{sample_wires}
use pheromone.Scheduler.Types.{
  Scheduler, Settings, Effect, init, send_data_req, send_to_executer, call, DelayFunctionCall,
  ExecutorStatus, empty, available, busy, RerunCheckQueueItem,
}
use pheromone.Scheduler.Statuses.{find_executors, get_avail_executor_num}
use pheromone.Scheduler.Objects.{ObjectInfo, direct_invocation}
use pheromone.Scheduler.Queues.{delay_forwarding, rerun_check}
use pheromone.Scheduler.Step.{Input, pass, Runs, start, after}
use pheromone.Scheduler.Credit.{calls_to, credit}
use pheromone.Scheduler.Credit.Passes.{all_released, calls_to-le_released}
use pheromone.Scheduler.Delayed.{Request, times, AreCalls}
use pheromone.Scheduler.Delayed.Passes.{delay_forwarding-conserves}
use pheromone.Scheduler.Reruns.{AllLater, front_due}
use pheromone.Scheduler.Reruns.Ends.{rerun_check-done}
use pheromone.Scheduler.Choice.{those, first, is_warm, is_cold, find_executors_lem}
use pheromone.Scheduler.Overflow.{direct_invocation-crashes}
use pheromone.Base.Sets
use pheromone.Base.Sets.{contains, insert_all}
use pheromone.Scheduler.Responses.{fetch_args, no_args}
use pheromone.Scheduler.Fetching.{fetch_args_lem}

abbrev settings : Settings
settings = record {
  rand_r = λ n. (n, suc n);
  get_mem = λ key size. [];
  executor_num = 2;
  sched_delay_time = 5;
  shared_executor = true;
  reject_extra_req = false;
}

-- Executor 1 is free, then a call comes.
abbrev flag_input : Input
flag_input = record { now = 0; message = some (2 ∷ 7 ∷ []); update = none; received = [] }

abbrev call_input : Input
call_input = record {
  now = 1;
  message = none;
  update = none;
  received = call (bytes "app") [] (bytes "s") ((bytes "f", bytes "x" ∷ [], 0) ∷ []) ∷ [];
}

abbrev nothing : Scheduler × List Effect
nothing = (init 2 0 0, [])

abbrev flagged : Scheduler × List Effect
unfolding pass
flagged = get_or (pass sample_wires settings flag_input (init 2 0 0)) nothing

abbrev called : Scheduler × List Effect
unfolding pass
called = get_or (pass sample_wires settings call_input flagged.0) nothing

two_passes :
    Runs sample_wires settings 0 0 (flag_input ∷ call_input ∷ []) called.0 (flagged.1 ++ called.1)
unfolding pass ◌▷◌ each put get
two_passes =
    after (flag_input ∷ []) call_input flagged.0 called.0 flagged.1 called.1
      (after [] flag_input (init 2 0 0) flagged.0 [] flagged.1 start refl) refl

calls_to-le_released_example :
    calls_to 1 (flagged.1 ++ called.1) + credit 1 called.0.executor_status_map
    ≤ all_released 1 (flag_input ∷ call_input ∷ [])
calls_to-le_released_example =
    calls_to-le_released sample_wires 1 settings 0 0 (flag_input ∷ call_input ∷ []) called.0
      (flagged.1 ++ called.1) two_passes

one_call : called.1 ≡ send_to_executer 1 (1 ∷ 1 ∷ 1 ∷ bytes "s|f|x") ∷ []
unfolding called ◌▷◌ each put get
one_call = refl

abbrev waiting_call : DelayFunctionCall
waiting_call = record {
  session_id = bytes "s";
  app_name = bytes "app";
  func_name = bytes "f";
  func_args = bytes "x" ∷ [];
  arg_flag = 0;
  trigger_time = 0;
}

-- One free executor and two delayed calls, of which the second is late.
abbrev crowded : Scheduler
crowded = record (init 2 0 0) {
  delay_call_queue = waiting_call ∷ waiting_call ∷ [];
  executor_status_map = (0, busy) ∷ (1, empty) ∷ [];
}

abbrev relieved : Scheduler × List Effect
unfolding delay_forwarding
relieved = get_or (delay_forwarding settings 1000000 crowded) nothing

delay_forwarding-conserves_example :
    (cs : List DelayFunctionCall) × AreCalls settings cs relieved.1
    × ((p : Request → Bool)
        → times p cs + times p relieved.0.delay_call_queue ≡ times p crowded.delay_call_queue)
unfolding delay_forwarding ◌▷◌ each get
delay_forwarding-conserves_example =
    delay_forwarding-conserves settings 1000000 crowded relieved.0 relieved.1 refl refl

both_started : length relieved.1 ≡ 2
unfolding relieved ◌▷◌ each get
both_started = refl

abbrev due_item : RerunCheckQueueItem
due_item = record { check_time = 3; session = bytes "s"; trigger_ptr = 0 }

-- A trigger that has seen a call of f.
abbrev watcher : Trigger
watcher =
    notify_source_func (make (bytes "g") (bytes "t") (immediate_state Immediate.init)) (bytes "s")
      (record { func_name = bytes "f"; func_args = []; arg_flag = 0 })

abbrev overdue : Scheduler
overdue = record (init 2 0 0) {
  triggers = watcher ∷ [];
  rerun_check_queue = due_item ∷ due_item ∷ [];
  func_trigger_timeout_map = (bytes "f", record { trigger_ptr = 0; timeout = 7 } ∷ []) ∷ [];
  executor_status_map = (0, busy) ∷ (1, empty) ∷ [];
}

overdue-AllLater : AllLater overdue.func_trigger_timeout_map
unfolding get
overdue-AllLater func = ground arith

rerun_check-done_example :
    (rerun_check settings 10 9 overdue ≡ rerun_check settings 10 2 overdue)
    × ((rerun_check settings 10 2 overdue ≡ none)
        ⊎ ((s' : Scheduler) × (effects : List Effect) × (rerun_check settings 10 2 overdue
              ≡ some (s', effects))
            × (front_due 10 s'.rerun_check_queue ≡ 0)))
rerun_check-done_example = rerun_check-done settings 10 9 overdue overdue-AllLater (omega arith)

abbrev mixed : Map ℕ ExecutorStatus
mixed = (0, busy) ∷ (1, empty) ∷ (2, available) ∷ (3, available) ∷ []

find_executors_lem_example :
    ((find_executors true (3 ∷ []) mixed).0 ≡ first (those (is_warm (3 ∷ [])) mixed))
    × (first (those (is_warm (3 ∷ [])) mixed) ≡ none
        → (find_executors true (3 ∷ []) mixed).1 ≡ those (is_cold true) mixed)
find_executors_lem_example = find_executors_lem true (3 ∷ []) mixed

abbrev large_result : ObjectInfo
large_result = record {
  session_id = bytes "s";
  src_function = bytes "e";
  tgt_function = [];
  bucket = bytes "b";
  session_key = bytes "k";
  content = bytes "20000";
}

direct_invocation-crashes_example :
    direct_invocation settings 0 2 large_result (bytes "app") (bytes "f" ∷ bytes "g" ∷ []) crowded
    ≡ none
unfolding get_avail_executor_num
direct_invocation-crashes_example =
    direct_invocation-crashes settings 0 large_result (bytes "app") (bytes "f" ∷ bytes "g" ∷ [])
      crowded refl refl (omega arith)

-- The object of `a` is here, a call waits for the one of `b`; `c` comes twice.
abbrev waiting : Scheduler
waiting = record (init 2 0 0) {
  key_len_map = (bytes "a", 1) ∷ [];
  key_call_id_map = (bytes "b", 7 ∷ []) ∷ [];
}

abbrev arguments : List Bytes
arguments = bytes "a" ∷ bytes "b" ∷ bytes "c" ∷ bytes "c" ∷ []

fetch_args_lem_example :
    let (inflight, _, effects) =
      fetch_args 8 arguments (no_args (bytes "f") (bytes "s") 1, waiting, []) in
    (inflight.key_args ≡ arguments)
    × (inflight.inflight_args ≡ bytes "b" ∷ bytes "c" ∷ [])
    × (effects ≡ send_data_req (bytes "c") ∷ [])
unfolding insert_all Sets.insert contains get
fetch_args_lem_example = fetch_args_lem 8 arguments (bytes "f") (bytes "s") 1 waiting
