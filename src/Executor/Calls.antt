-- ===== src/Executor/Calls.antt =====
-- scheduler_server.cpp and executor_server.cpp: a function call, from the scheduler to an executor.
use mathlib.Core.List.{append-nil, append_assoc}
use pheromone.Base.{
  ℕ, ◌+◌, ◌%◌, ◌<◌, ◌≡◌, refl, ap, ◌∙◌, Bytes, Session, false, List, [], ◌∷◌, ◌++◌, some, arith,
  length, All, nat_beq, Bool-cases, inl, inr, nat_eq, bytes_eq, if◌then◌else◌,
}
use pheromone.Base.Sets.{contains}
use pheromone.Base.Maps.{is_empty}
use pheromone.Common.{delimiter_char}
use pheromone.Common.Split.{split, split_from, split_from-part}
use pheromone.Scheduler.Types.{Scheduler}
use pheromone.Scheduler.Forward.{client_of}
use pheromone.Scheduler.Schedule.{joined, call_message}
use pheromone.Scheduler.Executors.{c_string}
use pheromone.Executor.{sent, read_call}

-- No delimiter and no NUL.
abbrev pub IsWord : Bytes → Type 0
IsWord v = (contains v delimiter_char ≡ false) × (contains v 0 ≡ false)

abbrev pub EndsNonempty : Bytes → List Bytes → Type 0
EndsNonempty v [] = 0 < length v
EndsNonempty v (w ∷ vs) = EndsNonempty w vs

contains-append :
    (c : ℕ) (s t : Bytes)
    → contains s c ≡ false
    → contains t c ≡ false
    → contains (s ++ t) c ≡ false
unfolding contains
contains-append c [] t p q = q
contains-append c (x ∷ s) t p q = ground (arith, contains-append c s t)

c_string-contains : (s : Bytes) → contains s 0 ≡ false → c_string (sent s) ≡ some s
unfolding c_string contains
c_string-contains [] h = refl
c_string-contains (c ∷ s) h = elim (Bool-cases (nat_beq c 0)) [
  | inl zero ↦ absurd (ground arith)
  | inr other ↦ rw (other, c_string-contains s (ground arith)) refl
]

split_from-last :
    (item v : Bytes)
    → contains v delimiter_char ≡ false
    → 0 < length (item ++ v)
    → split_from delimiter_char item v ≡ (item ++ v) ∷ []
unfolding split_from contains
split_from-last [] [] h p = absurd (omega arith)
split_from-last (c ∷ cs) [] h p = ground (arith, append-nil (c ∷ cs))
split_from-last [] (x ∷ v) h p = ground (arith, split_from-last (x ∷ []) v)
split_from-last (c ∷ cs) (x ∷ v) h p =
    ground (arith, split_from-last ((c ∷ cs) ++ x ∷ []) v, append_assoc (c ∷ cs) (x ∷ []) v)

contains-joined :
    (v : Bytes) (vs : List Bytes) → IsWord v → All IsWord vs → contains (v ++ joined vs) 0 ≡ false
unfolding contains
contains-joined v [] p q = rw (append-nil v) p.1
contains-joined v (w ∷ vs) p q =
    contains-append 0 v (delimiter_char ∷ (w ++ joined vs)) p.1 (contains-joined w vs q.0 q.1)

split-joined :
    (v : Bytes) (vs : List Bytes)
    → IsWord v
    → All IsWord vs
    → EndsNonempty v vs
    → split (v ++ joined vs) delimiter_char ≡ v ∷ vs
unfolding split
split-joined v [] p q e = rw (append-nil v) (split_from-last [] v p.0 e)
split-joined v (w ∷ vs) p q e =
    split_from-part delimiter_char [] v (w ++ joined vs) p.0
    ∙ ap (◌∷◌ v) (unfold split in split-joined w vs q.0 q.1 e)

-- An executor reads from the message of a call the session, the function and the arguments that the
-- scheduler put in, the flag of the arguments, and whether the output is for a client, if none of the
-- texts has a delimiter or a NUL, the last one is not empty, and the flag is below 256.
pub read_call-call_message :
    (session : Session) (func : Bytes) (args : List Bytes) (arg_flag : ℕ) (s : Scheduler)
    → arg_flag < 256
    → IsWord session
    → All IsWord (func ∷ args)
    → EndsNonempty func args
    → read_call (sent (call_message session func args arg_flag s))
      ≡ some (
          some (record {
            arg_flag = arg_flag;
            persist_output_flag = if is_empty (client_of session s) then 1 else 2;
            session_id = session;
            func_name = func;
            func_args = args;
          }))
unfolding read_call call_message
read_call-call_message session func args arg_flag s flag p q e =
    let same : ((arg_flag + 1) % 256 + 255) % 256 ≡ arg_flag = omega (arith, flag) in
    rw
      (
        c_string-contains (session ++ joined (func ∷ args))
            (contains-joined session (func ∷ args) p q),
        split-joined session (func ∷ args) p q e,
        same,
      )
      refl
