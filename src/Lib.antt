-- ===== src/Lib.antt =====
-- Pheromone, a data-centric serverless platform: functions are started by the arrival of data
-- objects in buckets, by triggers that are attached to the buckets.
--
-- The program's parts. Local schedulers (src/scheduler) run functions on executors (src/executor)
-- of one node and keep objects in shared memory (common/shm-ipc). Coordinators (src/coordinator)
-- know which node holds an object, own the buckets and their triggers, and place calls on nodes;
-- the manager (src/manager) gives each app a coordinator. The parts send each other the messages
-- of common/proto over ZeroMQ sockets. This library models the triggers, which coordinators and
-- schedulers share, the coordinator, the scheduler with the helper through which it talks to
-- coordinators and other nodes, and the manager.
--
-- Base: tests, lists, sets and maps, and runs, code that changes a state and puts out effects. An unordered_map is an association list and an unordered_set
--   a list without repetition; the list is the order of iteration, which C++ leaves open. Strings
--   are lists of byte values. Numbers are natural numbers; an int is the type of Base/Int, and
--   where a value is converted to unsigned the remainder is written out.
-- Common: common/include/common.hpp (BucketKey, shm_key_name, get_bucket_key_from_string, split,
--   gen_random), and std::to_string, std::stoi and the socket addresses as the handlers use them.
-- Trigger: common/include/trigger.hpp. One file for each class: ImmediateTrigger is Immediate,
--   ByNameTrigger is ByName, and so on; its fields are a record, and action_for_new_object,
--   notify_source_func, action_for_rerun and clear are functions from the object to the new object.
--   Dispatch holds class Trigger and the virtual calls, Primitives dump_pritimive and
--   gen_trigger_pointer.
-- Coordinator: src/coordinator. Types holds the messages and the maps of run() as one record.
--   Directory is update_address, get_address and query_handler, Buckets bucket_op_handler, Triggers
--   trigger_op_handler, Apps app_register_handler, Calls func_call_handler, Notify notify_handler,
--   and Step one pass of the loop of run() for one message, with the status update.
-- Threads: common/include/kvs_threads.hpp, op_threads.hpp and anna_threads.hpp, and the sockets that
--   CommHelper and the manager bind by their ports: the ports and the addresses that the sockets are
--   bound and connected to.
--
-- Scheduler: src/scheduler/scheduler_server.cpp and object_handlers.cpp. Types holds the variables of
--   the file and of run() as one record, the messages, and the calls of the helper as effects;
--   Statuses, Forward and Schedule are schedule_func_call and what it calls, Arrivals
--   check_object_arrival and check_trigger, Executors and Objects the messages of the executors,
--   Responses those of the helper, Queues the delayed calls, the reruns and the report, and Step one
--   pass of the loop, with one reading of the clock. A trigger that several maps point to is an index
--   into one list. The other modules are proofs: Credit of what executors are sent, Delayed, Reruns,
--   Choice, Fetching and Overflow.
-- Helper: include/scheduler/comm_helper.hpp. Types is the state of a CommHelper and its addresses,
--   Updates the messages of a coordinator in try_recv_msg, Calls the calls and notifications, Objects
--   the requests for objects; Mirror, Forwarded, Threads and Executors are proofs.
-- Executor: include/executor/function_lib.hpp and the messages of executor/executor_server.cpp; Gets
--   and Calls are proofs.
-- Manager: src/manager/manager_server.cpp, with proofs in Sticky and Answers.
--
-- A handler takes the state and a message and returns the new state and the messages that it
-- sends, in order. Where the code can crash (an index out of range, an exception, a null pointer),
-- it returns an Option, and `none` is the crash.
--
-- Parameters: the bytes of an object in shared memory, from its name and length; rand_r of the C library, from a seed to a number and the next seed; the clock, as
-- the argument `now`; and the protocol buffer library's serialisation of the trigger primitives
-- (Primitives.Wires), of which the documented law is used that parsing reads back what was
-- serialised. The tests give concrete ones.
--
-- Bounds and fuel. Decimal.to_string prints with fuel one more than the number, enough since a
-- digit at least is taken off at each step. The loop of func_call_handler that looks for a node with
-- a free slot (Calls/Share) has as fuel the number of nodes; where the nodes together have a slot
-- for every request it is proved to end. The loop over
-- the reruns (Scheduler/Queues) has as fuel the items in the queue, which is proved to be enough where
-- the timeouts are above 0; with a timeout of 0 the model stops after so many rounds. Counters that C++ keeps in an unsigned are taken modulo
-- 2^32 in the trigger classes.
--
-- Not modelled: the arguments of a function that are objects, the loading and running of functions, the client of the key-value store and the
-- responses that the helper makes of its answers, the queues between the helper's IO threads, the
-- lattices, sockets, logging and process start. The time stamps that are only logged are left out.
pub mod Base
pub mod Common
pub mod Trigger
pub mod Coordinator
pub mod Threads
pub mod Scheduler
pub mod Executor
pub mod Helper
pub mod Manager
