-- ===== src/Executor/Tests.antt =====
-- A function of executor 1, and the object `b|k` of 9 bytes.
use pheromone.Base.{◌<◌, suc, ◌≡◌, refl, bytes, [], ◌∷◌, some, bytes_eq, nat_eq, arith, true, false}
use pheromone.Base.Maps.{get}
use pheromone.Base.Sets.{contains}
use pheromone.Scheduler.Types.{Scheduler, Settings, init, send_to_executer}
use pheromone.Scheduler.Schedule.{call_message}
use pheromone.Scheduler.Executors.{executor_message}
use pheromone.Executor.{UserLibrary, new_library, get_request, sent, read_call, read_answer}
use pheromone.Executor.Gets.{executor_message-get_request}
use pheromone.Common.Decimal.{to_string}
use pheromone.Executor.Calls.{read_call-call_message}

abbrev settings : Settings
settings = record {
  rand_r = λ n. (n, suc n);
  get_mem = λ key size. [];
  executor_num = 2;
  sched_delay_time = 5;
  shared_executor = true;
  reject_extra_req = false;
}

abbrev library : UserLibrary
library = new_library (bytes "10.0.0.1") 1

abbrev scheduler : Scheduler
scheduler = record (init 2 0 0) { key_len_map = (bytes "b|k", 9) ∷ [] }

executor_message-get_request_example :
    (executor_message settings 0 (sent ((get_request (bytes "b|k") true library).0.0)) scheduler
      ≡ some (scheduler, send_to_executer 1 (3 ∷ 1 ∷ 1 ∷ bytes "9") ∷ []))
    × (read_answer 1 (bytes "b|k") (some (sent (3 ∷ 1 ∷ 1 ∷ bytes "9")))
        ≡ some (some (record { obj_name = bytes "b|k"; size = 9 })))
    × (1 < 100)
unfolding get get_request to_string
executor_message-get_request_example =
    executor_message-get_request settings 0 library 1 (bytes "b|k") 9 scheduler refl (omega arith)
      (omega arith) (omega arith) refl (omega arith) (omega arith)

read_call-call_message_example :
    read_call (sent (call_message (bytes "s") (bytes "f") ([] ∷ bytes "x" ∷ []) 0 scheduler))
    ≡ some (
        some (record {
          arg_flag = 0;
          persist_output_flag = 1;
          session_id = bytes "s";
          func_name = bytes "f";
          func_args = [] ∷ bytes "x" ∷ [];
        }))
unfolding get contains
read_call-call_message_example =
    read_call-call_message (bytes "s") (bytes "f") ([] ∷ bytes "x" ∷ []) 0 scheduler (omega arith)
      (refl, refl) ((refl, refl), ((refl, refl), ((refl, refl), tt))) (omega arith)
