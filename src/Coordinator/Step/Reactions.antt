-- ===== src/Coordinator/Step/Reactions.antt =====
-- What the arrival of an object leaves of the apps and the triggers.
use pheromone.Base.{
  ◌>>=◌, ℕ, ◌≡◌, refl, Bytes, Bucket, Key, Address, List, [], ◌∷◌, true, false, some, Holds,
  Holds-bind, Holds-if, Holds-trivial, arith, bytes_eq, ◌==◌, not, ◌&&◌, Bool-cases, inl, inr,
  get_elem?, ap, length,
}
use pheromone.Base.Sets
use pheromone.Base.Maps.{Map, get, put, has, get_or, is_empty, get-put}
use pheromone.Common.{BucketKey}
use pheromone.Common.Addresses.{ip_of_address}
use pheromone.Trigger.Types.{TriggerAction}
use pheromone.Trigger.Dispatch.{Trigger, action_for_new_object}
use pheromone.Coordinator.Types.{
  Coordinator, FunctionCall, KeyNotifyRequest, BucketKeyAddress, get_bucket_key_from_addr,
}
use pheromone.Coordinator.Notify.{
  Dispatched, Context, send_call, run_action, run_actions, dispatch, run_triggers, react,
  note_object, handle_object, handle_objects,
}
use pheromone.Coordinator.Notify.Arguments.{arguments_for}
use pheromone.Coordinator.Step.Registered.{IsRegistered, RegisteredIn-put_triggers}

-- No app is lost.
abbrev Grown : Map Bucket Bytes → Map Bucket Bytes → Type 0
Grown before after = (b : Bucket) → has after b ≡ false → has before b ≡ false

abbrev GrownTo : Map Bucket Bytes → Dispatched → Type 0
GrownTo before d = Grown before d.apps

Grown-put :
    (before m : Map Bucket Bytes) (b : Bucket) (app : Bytes)
    → Grown before m
    → Grown before (put m b app)
Grown-put before m b app g bucket h = elim (Bool-cases (b == bucket)) [
  | inl hit ↦ let no : true ≡ false = rw (get-put, hit) at h in cc
  | inr miss ↦ g bucket (rw (get-put, miss) at h)
]

-- The apps have grown, and no triggers are made of none.
abbrev Reacted : Map Bucket Bytes → List Trigger → List Trigger × List Bytes × Dispatched → Type 0
Reacted before ts (triggers, names, d) = Grown before d.apps × (ts ≡ [] → triggers ≡ [])

note_object-IsRegistered :
    (a : BucketKeyAddress) (addr ip : Address) (c : Coordinator)
    → IsRegistered c
    → IsRegistered (note_object a addr ip c)
unfolding note_object
note_object-IsRegistered a addr ip c h = elim (Bool-cases (is_empty a.payload)) [
  | inl none_sent ↦ rw none_sent h
  | inr sent ↦ rw sent h
]

module _ (rand_r : ℕ → ℕ × ℕ) (io_thread_num : ℕ) where
  send_call-apps :
      (worker : Address) (call : FunctionCall) (d : Dispatched)
      → (send_call rand_r io_thread_num worker call d).apps ≡ d.apps
  unfolding send_call
  send_call-apps [] call d = refl
  send_call-apps (x ∷ w) call d = refl

  run_action-GrownTo :
      (values : Map Bytes Bytes) (addresses : Map Key (List Address)) (x : Context)
      (action : TriggerAction) (before : Map Bucket Bytes) (d : Dispatched)
      → GrownTo before d
      → Holds (GrownTo before) (run_action rand_r io_thread_num values addresses x action d)
  unfolding run_action
  run_action-GrownTo values addresses x action before d g =
      let found = arguments_for values addresses x.bucket x.arg_flag action.session_keys in
      Holds-bind (λ a. Unit) (GrownTo before) found _ (Holds-trivial found)
        λ a u. rw send_call-apps (Grown-put before d.apps x.bucket _ g)

  run_actions-GrownTo :
      (values : Map Bytes Bytes) (addresses : Map Key (List Address)) (x : Context)
      (actions : List TriggerAction) (before : Map Bucket Bytes) (d : Dispatched)
      → GrownTo before d
      → Holds (GrownTo before) (run_actions rand_r io_thread_num values addresses x actions d)
  unfolding run_actions
  run_actions-GrownTo values addresses x [] before d g = g
  run_actions-GrownTo values addresses x (action ∷ actions) before d g =
      Holds-bind (GrownTo before) (GrownTo before) _ _
        (run_action-GrownTo values addresses x action before d g)
        (λ d'. run_actions-GrownTo values addresses x actions before d')

  run_triggers-Reacted :
      (now : ℕ) (active : List Bytes) (values : Map Bytes Bytes)
      (addresses : Map Key (List Address)) (k : BucketKey) (resp : Bytes) (ts : List Trigger)
      (before : Map Bucket Bytes) (d : Dispatched)
      → GrownTo before d
      → Holds
          (Reacted before ts)
          (run_triggers rand_r io_thread_num now active values addresses k resp ts d)
  unfolding run_triggers
  run_triggers-Reacted now active values addresses k resp [] before d g = (g, λ e. refl)
  run_triggers-Reacted now active values addresses k resp (t ∷ ts) before d g =
      let actions = (action_for_new_object now t k).1 in
      Holds-bind (GrownTo before) (Reacted before (t ∷ ts))
        (dispatch rand_r io_thread_num active values addresses k resp t actions d) _
        (Holds-if (GrownTo before) (Sets.contains active t.trigger_name) (some d) _ g
          (run_actions-GrownTo values addresses _ actions before d g))
        (λ d' g'.
          Holds-bind (Reacted before ts) (Reacted before (t ∷ ts))
            (run_triggers rand_r io_thread_num now active values addresses k resp ts d') _
            (run_triggers-Reacted now active values addresses k resp ts before d' g')
            (λ r q. (q.0, λ e. absurd (omega (arith, ap length e)))))

  handle_object-IsRegistered :
      (now : ℕ) (request : KeyNotifyRequest) (a : BucketKeyAddress) (c : Coordinator)
      → IsRegistered c
      → Holds (λ x. IsRegistered x.0) (handle_object rand_r io_thread_num now request a c)
  unfolding handle_object
  handle_object-IsRegistered now request a c h =
      let k = get_bucket_key_from_addr a in
      Holds-bind (λ x. Unit) (λ x. IsRegistered x.0) (get_elem? a.ips 0) _ (Holds-trivial _)
        λ addr u.
          Holds-bind (λ x. Unit) (λ x. IsRegistered x.0) (ip_of_address addr) _ (Holds-trivial _)
            λ ip v.
              let c' = note_object a addr ip c in
              let h' = note_object-IsRegistered a addr ip c h in
              let ts = get_or (get c'.bucket_triggers_map k.bucket) [] in
              Holds-bind (Reacted c'.bucket_app_map ts) (λ x. IsRegistered x.0)
                (react rand_r io_thread_num now request k c') _
                (run_triggers-Reacted now request.active_trigger_names _ _ _ _ ts c'.bucket_app_map
                  _ (λ b n. n))
                λ r q.
                  RegisteredIn-put_triggers r.2.apps c'.bucket_triggers_map k.bucket r.0
                    (λ b n. h' b (q.0 b n)) (λ n. q.1 (h' k.bucket (q.0 k.bucket n)))

  pub handle_objects-IsRegistered :
      (now : ℕ) (request : KeyNotifyRequest) (objects : List BucketKeyAddress) (c : Coordinator)
      → IsRegistered c
      → Holds (λ x. IsRegistered x.0) (handle_objects rand_r io_thread_num now request objects c)
  unfolding handle_objects
  handle_objects-IsRegistered now request [] c h = h
  handle_objects-IsRegistered now request (a ∷ rest) c h =
      Holds-if (λ x. IsRegistered x.0) (is_empty a.payload && not (has c.bucket_app_map a.bucket))
        (get_elem? a.ips 0 >>= λ addr. some (c, [])) _
        (Holds-bind (λ x. Unit) (λ x. IsRegistered x.0) (get_elem? a.ips 0) _ (Holds-trivial _)
          (λ addr u. h))
        (Holds-bind (λ x. IsRegistered x.0) (λ x. IsRegistered x.0)
          (handle_object rand_r io_thread_num now request a c) _
          (handle_object-IsRegistered now request a c h)
          λ r h'.
            Holds-bind (λ x. IsRegistered x.0) (λ x. IsRegistered x.0)
              (handle_objects rand_r io_thread_num now request rest r.0) _
              (handle_objects-IsRegistered now request rest r.0 h') λ q g. g)
