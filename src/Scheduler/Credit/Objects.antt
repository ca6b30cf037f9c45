-- ===== src/Scheduler/Credit/Objects.antt =====
-- scheduler_server.cpp: the arrival of an object sends an executor a call only when it is free.
use pheromone.Base.{
  ℕ, ◌≡◌, refl, ◌∙◌, Bytes, Session, List, [], ◌∷◌, Option, some, none, arith, Holds, Holds-bind,
  Holds-trivial, bytes_eq, bytes_beq, nat_eq, nat_beq, ltb, get_elem?, length, drop,
}
use pheromone.Base.Maps.{get, get_or, is_empty}
use pheromone.Base.Sets.{contains}
use pheromone.Base.Runs.{skip, modify, Keeps-if, Keeps-given}
use pheromone.Common.{BucketKey, of_session_key, bucket_name_direct_invoc}
use pheromone.Common.Stoi.{stoi}
use pheromone.Scheduler.Types.{Scheduler, Settings, Effect, TriggerPointer}
use pheromone.Scheduler.Statuses.{get_avail_executor_num}
use pheromone.Scheduler.Schedule.{update_at}
use pheromone.Scheduler.Arrivals.{
  arrive_at, check_object_arrival, check_trigger, Arrived, schedule_all,
}
use pheromone.Scheduler.Objects.{
  ObjectInfo, note_object, invoke_all, copies, schedule_targets, direct_invocation, trigger_check,
  told, react, send_known, ephemeral_object, durable_object, client_object, output_of,
}
use pheromone.Scheduler.Credit.{
  Spends, Spends-quiet, Spends-still, calls_to, calls_to-append, Spends-joins,
}
use pheromone.Scheduler.Credit.Moves.{
  IsFair, IsFair-then, IsFair-each, schedule_func_call-IsFair, forward_call_via_helper-IsFair,
}

-- The executors are as before.
abbrev KeepsExecutors : Scheduler → Arrived → Type 0
KeepsExecutors s (t, names, metas) = t.executor_status_map ≡ s.executor_status_map

arrive_at-KeepsExecutors :
    (now : ℕ) (k : BucketKey) (pointer : TriggerPointer) (s : Scheduler)
    → Holds (KeepsExecutors s) (arrive_at now k pointer s)
unfolding arrive_at
arrive_at-KeepsExecutors now k pointer s =
    Holds-bind (λ t. Unit) (KeepsExecutors s) (get_elem? s.triggers pointer) _ (Holds-trivial _)
      λ t u.
        Holds-bind (λ ts. Unit) (KeepsExecutors s) (update_at pointer _ s.triggers) _
          (Holds-trivial _) (λ ts v. refl)

check_object_arrival-KeepsExecutors :
    (now : ℕ) (k : BucketKey) (pointers : List TriggerPointer) (s : Scheduler)
    → Holds (KeepsExecutors s) (check_object_arrival now k pointers s)
unfolding check_object_arrival
check_object_arrival-KeepsExecutors now k [] s = refl
check_object_arrival-KeepsExecutors now k (pointer ∷ pointers) s =
    Holds-bind (KeepsExecutors s) (KeepsExecutors s) (arrive_at now k pointer s) _
      (arrive_at-KeepsExecutors now k pointer s)
      λ r h.
        Holds-bind (KeepsExecutors r.0) (KeepsExecutors s) (check_object_arrival now k pointers r.0)
          _ (check_object_arrival-KeepsExecutors now k pointers r.0) (λ q g. g ∙ h)

module _ (e : ℕ) (st : Settings) (now : ℕ) where
  abbrev SpendsChecked : Scheduler → List Bytes × Scheduler × List Effect → Type 0
  SpendsChecked s (names, t, effects) = Spends e s t effects

  check_trigger-Spends :
      (k : BucketKey) (session : Session) (s : Scheduler)
      → Holds (SpendsChecked s) (check_trigger st now k session s)
  unfolding check_trigger
  check_trigger-Spends k session s =
      let pointers = get_or (get s.bucket_triggers_map k.bucket) [] in
      Holds-bind (KeepsExecutors s) (SpendsChecked s) (check_object_arrival now k pointers s) _
        (check_object_arrival-KeepsExecutors now k pointers s)
        λ r same.
          Holds-bind (λ q. Spends e r.0 q.0 q.1) (SpendsChecked s)
            (schedule_all st now session _ r.2 r.0) _
            (IsFair-each e _ r.2 r.0 (λ m t.
              schedule_func_call-IsFair e st now session _ m.func_name m.func_args m.arg_flag t))
            (λ q h. Spends-joins e s r.0 q.0 [] q.1 (Spends-quiet e s r.0 [] same refl) h)

  calls_to-told :
      (packing : ℕ) (o : ObjectInfo) (k : BucketKey) (names : List Bytes) (s : Scheduler)
      → calls_to e (told st now packing o k names s) ≡ 0
  unfolding told
  calls_to-told packing o k names s = ground arith

  trigger_check-IsFair :
      (packing : ℕ) (o : ObjectInfo) (s : Scheduler) → IsFair e s (trigger_check st now packing o)
  unfolding trigger_check
  trigger_check-IsFair packing o s =
      let k = of_session_key o.bucket o.session_key in
      Holds-bind (SpendsChecked s) (λ r. Spends e s r.0 r.1) (check_trigger st now k o.session_id s)
        _ (check_trigger-Spends k o.session_id s)
        (λ r h d.
          let (d', spent) = h d in
          (
            d',
            omega (
              arith,
              spent,
              calls_to-append e r.2 (told st now packing o k r.0 r.1),
              calls_to-told packing o k r.0 r.1,
            ),
          ))

  note_object-IsFair :
      (packing : ℕ) (o : ObjectInfo) (s : Scheduler) → IsFair e s (note_object st now packing o)
  unfolding note_object
  note_object-IsFair packing o s =
      Keeps-if (Spends e) (nat_beq packing 1) (modify _) _ s (λ d. (d, omega arith))
        (Keeps-if (Spends e) (nat_beq packing 2) _ skip s
          (Keeps-given (Spends e) (stoi o.content) _ s (λ size d. (d, omega arith)))
          (λ d. (d, omega arith)))

  schedule_targets-IsFair :
      (session : Session) (app_name : Bytes) (args : List Bytes) (arg_flag : ℕ)
      (targets : List Bytes) (s : Scheduler)
      → IsFair e s (schedule_targets st now session app_name args arg_flag targets)
  schedule_targets-IsFair session app_name args arg_flag targets s =
      IsFair-each e _ targets s
        (λ func t. schedule_func_call-IsFair e st now session app_name func args arg_flag t)

  invoke_all-IsFair :
      (session : Session) (app_name : Bytes) (args : List Bytes) (arg_flag : ℕ)
      (targets : List Bytes) (s : Scheduler)
      → IsFair e s (invoke_all st now session app_name args arg_flag targets)
  unfolding invoke_all
  invoke_all-IsFair session app_name args arg_flag targets s =
      let avail = get_avail_executor_num s.executor_status_map in
      let remote = drop avail targets in
      Keeps-if (Spends e) (ltb avail (length targets)) _ _ s
        (IsFair-then e _ _ s (schedule_targets-IsFair session app_name args arg_flag _ s) λ t.
          Keeps-if (Spends e) st.reject_extra_req skip _ t (Spends-still e t) (
            forward_call_via_helper-IsFair e st session app_name remote (copies st now args remote)
              arg_flag t))
        (schedule_targets-IsFair session app_name args arg_flag targets s)

  direct_invocation-IsFair :
      (packing : ℕ) (o : ObjectInfo) (app_name : Bytes) (targets : List Bytes) (s : Scheduler)
      → IsFair e s (direct_invocation st now packing o app_name targets)
  unfolding direct_invocation
  direct_invocation-IsFair packing o app_name targets s =
      Keeps-if (Spends e) (is_empty o.tgt_function) _ _ s
        (invoke_all-IsFair o.session_id app_name _ _ targets s)
        (Keeps-if (Spends e) (contains targets o.tgt_function) _ skip s
          (schedule_func_call-IsFair e st now o.session_id app_name o.tgt_function _ _ s)
          (Spends-still e s))

  react-IsFair :
      (packing : ℕ) (o : ObjectInfo) (app_name : Bytes) (deps : Option (List Bytes)) (s : Scheduler)
      → IsFair e s (react st now packing o app_name deps)
  unfolding react
  react-IsFair packing o app_name none s =
      Keeps-if (Spends e) (bytes_beq o.bucket bucket_name_direct_invoc) skip _ s (Spends-still e s)
        (trigger_check-IsFair packing o s)
  react-IsFair packing o app_name (some targets) s =
      direct_invocation-IsFair packing o app_name targets s

  ephemeral_object-IsFair :
      (packing : ℕ) (o : ObjectInfo) (s : Scheduler)
      → IsFair e s (ephemeral_object st now packing o)
  unfolding ephemeral_object
  ephemeral_object-IsFair packing o s = react-IsFair packing o _ _ s

  durable_object-IsFair :
      (id req_id packing : ℕ) (o : ObjectInfo) (s : Scheduler)
      → IsFair e s (durable_object st now id req_id packing o)
  unfolding durable_object
  durable_object-IsFair id req_id packing o s =
      IsFair-then e _ (modify _) s
        (Keeps-if (Spends e) (nat_beq packing 1) _ _ s (λ d. (d, omega arith))
          (Keeps-if (Spends e) (nat_beq packing 2) _ skip s
            (Keeps-given (Spends e) (stoi o.content) _ s (λ size d. (d, omega arith)))
            (λ d. (d, omega arith))))
        (λ t d. (d, omega arith))

  client_object-IsFair :
      (packing : ℕ) (o : ObjectInfo) (s : Scheduler) → IsFair e s (client_object st now packing o)
  unfolding client_object
  client_object-IsFair packing o s =
      Keeps-given (Spends e) (output_of st now packing o) _ s (λ output d. (d, omega arith))

  pub send_known-IsFair :
      (id type req_id packing : ℕ) (o : Option ObjectInfo) (s : Scheduler)
      → IsFair e s (send_known st now id type req_id packing o)
  unfolding send_known
  send_known-IsFair id type req_id packing none s = Spends-still e s
  send_known-IsFair id type req_id packing (some o) s =
      Keeps-if (Spends e) (nat_beq type 2) _ _ s
        (IsFair-then e _ _ s (note_object-IsFair packing o s) (ephemeral_object-IsFair packing o))
        (Keeps-if (Spends e) (nat_beq type 3) _ _ s (durable_object-IsFair id req_id packing o s)
          (client_object-IsFair packing o s))
