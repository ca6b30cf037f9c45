-- ===== src/Executor/Gets.antt =====
-- function_lib.hpp and scheduler_server.cpp: an object that a function gets.
use pheromone.Base.{
  lt→ltb, bytes_eq, nat_eq, ap, ℕ, ◌+◌, ◌%◌, ◌<◌, ◌≡◌, refl, Bytes, true, false, [], ◌∷◌, some,
  arith, length, All, leb, le→leb, ltb, nat_beq, take-append_length, length-append,
}
use pheromone.Base.Maps.{get}
use pheromone.Common.Decimal.{to_string}
use pheromone.Common.Stoi.{IsDigit, to_string-IsDigit, stoi-to_string}
use pheromone.Scheduler.Types.{Scheduler, Settings, send_to_executer}
use pheromone.Scheduler.Schedule.{send_to}
use pheromone.Scheduler.Objects.{response}
use pheromone.Scheduler.Executors.{c_string, on_get, on_local_get, get_message, executor_message}
use pheromone.Executor.{UserLibrary, get_request_id, get_request, sent, to_size, read_answer}

c_string-sent : (s : Bytes) → All IsDigit s → c_string (sent s) ≡ some s
unfolding c_string
c_string-sent [] h = refl
c_string-sent (c ∷ s) h =
    let e : nat_beq c 0 ≡ false = ground (arith, h.0.0) in rw (e, c_string-sent s h.1) refl

get_request_id-lt : (u : UserLibrary) → u.rid < 100 → (get_request_id u).0 < 100
unfolding get_request_id
get_request_id-lt u h = ground arith

-- A function that gets an object of the node learns its name and length: the scheduler reads the
-- request, answers the executor that sent it, and the library takes the answer, if the name has below
-- 256 bytes, the length fits an int, the thread's id a byte, and the last request id was below 100, as
-- it is at the start; the new one is again.
pub executor_message-get_request :
    (st : Settings) (now : ℕ) (u : UserLibrary) (thread_id : ℕ) (obj_name : Bytes) (size : ℕ)
    (s : Scheduler)
    → u.chan_id ≡ (thread_id + 1) % 256
    → thread_id < 256
    → thread_id < st.executor_num
    → length obj_name < 256
    → get s.key_len_map obj_name ≡ some size
    → size < 2147483648
    → u.rid < 100
    → let ((request, req_id), u') = get_request obj_name true u in
      (executor_message st now (sent request) s
        ≡ some (s, send_to_executer thread_id (response req_id (to_string size)) ∷ []))
      × (read_answer req_id obj_name (some (sent (response req_id (to_string size))))
          ≡ some (some (record { obj_name = obj_name; size = size })))
      × (u'.rid < 100)
unfolding get_request executor_message get_message on_get on_local_get send_to read_answer
executor_message-get_request st now u thread_id obj_name size s chan byte thread short here small
      ids =
    let id : (u.chan_id + 255) % 256 ≡ thread_id = omega (arith, chan, byte) in
    let len : length obj_name % 256 ≡ length obj_name = omega (arith, short) in
    let fits : leb (length obj_name) (length (sent obj_name)) ≡ true =
      le→leb (length obj_name) (length (sent obj_name))
        (omega (arith, length-append obj_name (0 ∷ []))) in
    let known : ltb thread_id st.executor_num ≡ true = ground (arith, thread) in
    let int : to_size size ≡ size = ground (arith, small) in
    let small_id : ltb (get_request_id u).0 128 ≡ true =
      lt→ltb (get_request_id u).0 128 (omega (arith, get_request_id-lt u ids)) in
    let same : (r : ℕ) → nat_beq r r ≡ true = λ r. ground arith in
    (
      rw (len, fits) (rw (take-append_length obj_name (0 ∷ []), id, here, known) refl),
      rw
          (
            small_id,
            same ((get_request_id u).0),
            c_string-sent (to_string size) (to_string-IsDigit size),
            stoi-to_string size small,
          )
          (ap (λ n. some (some (record { obj_name = obj_name; size = n }))) int),
      get_request_id-lt u ids,
    )
