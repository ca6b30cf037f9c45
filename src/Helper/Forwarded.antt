-- ===== src/Helper/Forwarded.antt =====
-- comm_helper.hpp: a forwarded call as the scheduler that gets it sees it.
use mathlib.Core.Path.{subst}
use pheromone.Base.{
  ltb, arith, ℕ, ◌≡◌, refl, ap, ◌∙◌, Bytes, Address, Session, List, [], ◌∷◌, ◌++◌, false, some,
  Holds, Holds-bind, Holds-both, Holds-trivial, bytes_eq, if◌then◌else◌, Bool-cases, inl, inr,
}
use pheromone.Base.Maps.{Map, get, is_empty}
use pheromone.Common.{delimiter}
use pheromone.Coordinator.Types.{Argument}
use pheromone.Coordinator.Types.{FunctionCall}
use pheromone.Scheduler.Types.{call}
use pheromone.Scheduler.Forward.{is_positive}
use pheromone.Helper.Types.{CommHelper, get_data_server_addr}
use pheromone.Helper.Calls.{
  Outgoing, function_call, key_arguments, value_arguments, arguments_of, requests_of,
  forward_func_call, receive_arguments, receive_requests, handle_function_call, emplace,
}

-- The names of the objects, from bucket, key and size in turn.
abbrev pub object_keys : List Bytes → List Bytes
object_keys [] = []
object_keys (bucket ∷ []) = []
object_keys (bucket ∷ key ∷ []) = (bucket ++ (delimiter ++ key)) ∷ []
object_keys (bucket ∷ key ∷ size ∷ rest) = (bucket ++ (delimiter ++ key)) ∷ object_keys rest

-- A call on values has them as arguments, a call on keys their objects' names; both have the flag,
-- unless there is no argument.
abbrev pub seen : ℕ → List Bytes → List Bytes × ℕ
seen arg_flag args =
    (if is_positive arg_flag then object_keys args else args, if is_empty args then 0 else arg_flag)

-- The flag that is received for arguments with the flag, after the first.
abbrev last_flag : ℕ → List Bytes → ℕ → ℕ
last_flag arg_flag args first =
    if is_empty args then first else if ltb 0 arg_flag then arg_flag else first

abbrev pub seen_calls : ℕ → List Bytes → List (List Bytes) → List (Bytes × List Bytes × ℕ)
seen_calls arg_flag [] args = []
seen_calls arg_flag (name ∷ names) [] = []
seen_calls arg_flag (name ∷ names) (args ∷ rest) =
    let (bodies, flag) = seen arg_flag args in (name, bodies, flag) ∷ seen_calls arg_flag names rest

-- What is received for arguments, starting with a flag.
abbrev Gives : List Argument → List Bytes → (ℕ → ℕ) → Type 0
Gives args bodies flag =
    (first : ℕ) (cache : Map Bytes Address)
    → ((receive_arguments args first cache).0 ≡ bodies)
      × ((receive_arguments args first cache).1 ≡ flag first)

last_flag-next :
    (arg_flag : ℕ) (args : List Bytes) (first : ℕ)
    → last_flag arg_flag args (if ltb 0 arg_flag then arg_flag else first)
      ≡ (if ltb 0 arg_flag then arg_flag else first)
last_flag-next arg_flag [] first = refl
last_flag-next arg_flag (arg ∷ args) first = ground arith

last_flag-zero :
    (arg_flag : ℕ) (args : List Bytes)
    → last_flag arg_flag args 0 ≡ (if is_empty args then 0 else arg_flag)
last_flag-zero arg_flag [] = refl
last_flag-zero arg_flag (arg ∷ args) = ground arith

value_arguments-Gives :
    (arg_flag : ℕ) (args : List Bytes)
    → Gives (value_arguments arg_flag args) args (last_flag arg_flag args)
unfolding value_arguments receive_arguments
value_arguments-Gives arg_flag [] first cache = (refl, refl)
value_arguments-Gives arg_flag (arg ∷ args) first cache =
    let more =
      value_arguments-Gives arg_flag args (if ltb 0 arg_flag then arg_flag else first)
        (if ltb 0 arg_flag then emplace cache arg [] else cache) in
    (ap (λ bodies. arg ∷ bodies) more.0, more.1 ∙ last_flag-next arg_flag args first)

key_arguments-Gives :
    (arg_flag : ℕ) (args : List Bytes) (h : CommHelper)
    → Holds
        (λ r. Gives r.0 (object_keys args) (last_flag arg_flag args))
        (key_arguments arg_flag args h)
unfolding key_arguments receive_arguments
key_arguments-Gives arg_flag [] h = λ first cache. (refl, refl)
key_arguments-Gives arg_flag (bucket ∷ []) h = tt
key_arguments-Gives arg_flag (bucket ∷ key ∷ []) h = λ first cache. (refl, refl)
key_arguments-Gives arg_flag (bucket ∷ key ∷ size ∷ rest) h =
    let (address, h') = get_data_server_addr false h in
    Holds-bind (λ r. Gives r.0 (object_keys rest) (last_flag arg_flag rest))
      (λ r.
        Gives r.0 (object_keys (bucket ∷ key ∷ size ∷ rest))
          (last_flag arg_flag (bucket ∷ key ∷ size ∷ rest)))
      (key_arguments arg_flag rest h') _ (key_arguments-Gives arg_flag rest h')
      λ r g first cache.
        let more = g (if ltb 0 arg_flag then arg_flag else first) (
          if ltb 0 arg_flag then emplace cache (bucket ++ (delimiter ++ key)) address else cache) in
        (
          ap (λ bodies. (bucket ++ (delimiter ++ key)) ∷ bodies) more.0,
          more.1 ∙ last_flag-next arg_flag rest first,
        )

-- What is received for a request with the arguments.
abbrev IsSeen : ℕ → List Bytes → List Argument → Type 0
IsSeen arg_flag args sent =
    (cache : Map Bytes Address)
    → ((receive_arguments sent 0 cache).0 ≡ (seen arg_flag args).0)
      × ((receive_arguments sent 0 cache).1 ≡ (seen arg_flag args).1)

arguments_of-IsSeen :
    (arg_flag : ℕ) (args : List Bytes) (h : CommHelper)
    → Holds (λ r. IsSeen arg_flag args r.0) (arguments_of arg_flag args h)
arguments_of-IsSeen arg_flag args h = elim (Bool-cases (is_positive arg_flag)) [
  | inl p ↦ rw p (
      Holds-both (λ r. Unit) (λ r. Gives r.0 (object_keys args) (last_flag arg_flag args))
        (λ r.
          (cache : Map Bytes Address)
          → ((receive_arguments r.0 0 cache).0 ≡ object_keys args)
            × ((receive_arguments r.0 0 cache).1 ≡ (if is_empty args then 0 else arg_flag)))
        (key_arguments arg_flag args h) (Holds-trivial _) (key_arguments-Gives arg_flag args h)
        (λ r u g cache. ((g 0 cache).0, (g 0 cache).1 ∙ last_flag-zero arg_flag args)))
  | inr p ↦ rw p (λ cache.
      let (bodies, flag) = value_arguments-Gives arg_flag args 0 cache in
      (bodies, flag ∙ last_flag-zero arg_flag args))
]

requests_of-IsSeen :
    (arg_flag : ℕ) (names : List Bytes) (args : List (List Bytes)) (h : CommHelper)
    → Holds
        (λ r.
          (cache : Map Bytes Address)
          → (receive_requests r.0 cache).0 ≡ seen_calls arg_flag names args)
        (requests_of arg_flag names args h)
unfolding requests_of receive_requests
requests_of-IsSeen arg_flag [] args h = λ cache. refl
requests_of-IsSeen arg_flag (name ∷ names) [] h = tt
requests_of-IsSeen arg_flag (name ∷ names) (args ∷ rest) h =
    Holds-bind (λ r. IsSeen arg_flag args r.0)
      (λ r.
        (cache : Map Bytes Address)
        → (receive_requests r.0 cache).0 ≡ seen_calls arg_flag (name ∷ names) (args ∷ rest))
      (arguments_of arg_flag args h) _ (arguments_of-IsSeen arg_flag args h)
      λ r g.
        Holds-bind
          (λ q.
            (cache : Map Bytes Address)
            → (receive_requests q.0 cache).0 ≡ seen_calls arg_flag names rest)
          (λ q.
            (cache : Map Bytes Address)
            → (receive_requests q.0 cache).0 ≡ seen_calls arg_flag (name ∷ names) (args ∷ rest))
          (requests_of arg_flag names rest r.1) _ (requests_of-IsSeen arg_flag names rest r.1)
          (λ q g' cache. rw ((g cache).0, (g cache).1, g' (receive_arguments r.0 0 cache).2) refl)

-- What is sent is a function call, which is received as the calls.
abbrev IsReceived :
    Address → Bytes → Session → List (Bytes × List Bytes × ℕ) → CommHelper → Outgoing → Type 0
IsReceived client app_name session calls g sent =
    (to : Address) × (c : FunctionCall) × (sent ≡ function_call to c)
    × ((handle_function_call c g).0 ≡ call app_name client session calls)

-- Where a call is forwarded, what is sent is a function call, and a scheduler that gets it sees the
-- functions, the client, the app and the session of the call: a function called on values with its
-- arguments, one called on keys with the names of the objects, and the flag of the call, or 0 for a
-- function without arguments.
pub handle_function_call-forward_func_call :
    (client : Address) (app_name : Bytes) (names : List Bytes) (args : List (List Bytes))
    (arg_flag : ℕ) (session : Session) (h h' g : CommHelper) (sent : Outgoing)
    → forward_func_call client app_name names args arg_flag session h ≡ some (sent, h')
    → (to : Address) × (c : FunctionCall) × (sent ≡ function_call to c)
      × ((handle_function_call c g).0
          ≡ call app_name client session (seen_calls arg_flag names args))
unfolding forward_func_call handle_function_call
handle_function_call-forward_func_call client app_name names args arg_flag session h h' g sent
      done =
    let Q : Outgoing × CommHelper → Type 0 =
      λ r. IsReceived client app_name session (seen_calls arg_flag names args) g r.0 in
    subst (Holds Q) done (
      Holds-bind _ Q (requests_of arg_flag names args h) _
        (requests_of-IsSeen arg_flag names args h)
        λ r seen_all.
          Holds-bind (λ coord. Unit) Q (get h.app_coord_map app_name) _ (Holds-trivial _)
            (λ coord u.
              (_, _, refl, ap (call app_name client session) (seen_all g.key_address_cache))))
