-- ===== src/Coordinator/Step/Registered.antt =====
-- Which buckets have triggers.
use pheromone.Base.{
  ℕ, ◌≡◌, refl, Bytes, Bucket, Address, List, [], ◌∷◌, true, false, Option, none, some, Holds,
  Holds-bind, Holds-trivial, bytes_eq, ◌==◌, ==_iff, Bool-cases, inl, inr, get_elem?,
}
use pheromone.Base.Maps
use pheromone.Base.Maps.{
  Map, get, put, erase, has, get_or, is_empty, get-put, get-put_self, get-erase,
}
use pheromone.Trigger.Dispatch.{Trigger}
use pheromone.Trigger.Primitives.{Wires, gen_trigger_pointer}
use pheromone.Coordinator.Types.{
  Coordinator, BucketOperationType, create_bucket, delete_bucket, unknown_bucket_operation,
  TriggerOperationType, add_trigger, delete_trigger, unknown_trigger_operation,
  TriggerOperationRequest, DependencyType, direct, many_to_one, k_out_of_n, periodic,
  unknown_dependency, DataDependency, UpdateCoordMsg,
}
use pheromone.Coordinator.Buckets.{bucket_op}
use pheromone.Coordinator.Triggers.{without, has_trigger, add, delete, operate}
use pheromone.Coordinator.Apps.{
  register_bucket, push_trigger, register_dependency, register_all, register_bucket_dependency,
  dependency_trigger, bucket_of,
}

-- Only registered buckets have triggers.
abbrev pub RegisteredIn : Map Bucket Bytes → Map Bucket (List Trigger) → Type 0
RegisteredIn apps m = (bucket : Bucket) → has apps bucket ≡ false → get_or (get m bucket) [] ≡ []

abbrev pub IsRegistered : Coordinator → Type 0
IsRegistered c = RegisteredIn c.bucket_app_map c.bucket_triggers_map

pub RegisteredIn-put_triggers :
    (apps : Map Bucket Bytes) (m : Map Bucket (List Trigger)) (b : Bucket) (ts : List Trigger)
    → RegisteredIn apps m
    → (has apps b ≡ false → ts ≡ [])
    → RegisteredIn apps (put m b ts)
RegisteredIn-put_triggers apps m b ts r known bucket h = elim (Bool-cases (b == bucket)) [
  | inl hit ↦ rw (get-put, hit) (known (rw ((==_iff b bucket).0 hit) h))
  | inr miss ↦ rw (get-put, miss) (r bucket h)
]

pub RegisteredIn-put_app :
    (apps : Map Bucket Bytes) (m : Map Bucket (List Trigger)) (b : Bucket) (app : Bytes)
    → RegisteredIn apps m
    → RegisteredIn (put apps b app) m
RegisteredIn-put_app apps m b app r bucket h = elim (Bool-cases (b == bucket)) [
  | inl hit ↦ let no : true ≡ false = rw (get-put, hit) at h in cc
  | inr miss ↦ r bucket (rw (get-put, miss) at h)
]

RegisteredIn-erase :
    (apps : Map Bucket Bytes) (m : Map Bucket (List Trigger)) (b : Bucket)
    → RegisteredIn apps m
    → RegisteredIn (erase apps b) (erase m b)
RegisteredIn-erase apps m b r bucket h = elim (Bool-cases (b == bucket)) [
  | inl hit ↦ rw (get-erase, hit) refl
  | inr miss ↦ rw (get-erase, miss) (r bucket (rw (get-erase, miss) at h))
]

-- And every node has one status.
abbrev pub IsValid : Coordinator → Type 0
IsValid c = IsRegistered c × Maps.Distinct c.node_status_map

pub bucket_op-IsValid :
    (c : Coordinator) (type_of : BucketOperationType) (app : Bytes) (bucket : Bucket)
    → IsValid c
    → IsValid (bucket_op c type_of app bucket).0
unfolding bucket_op
bucket_op-IsValid c create_bucket app bucket r = elim (Bool-cases (has c.bucket_app_map bucket)) [
  | inl known ↦ rw known r
  | inr new ↦
      rw new (RegisteredIn-put_app c.bucket_app_map c.bucket_triggers_map bucket app r.0, r.1)
]
bucket_op-IsValid c delete_bucket app bucket r = elim (Bool-cases (has c.bucket_app_map bucket)) [
  | inl known ↦ rw known (RegisteredIn-erase c.bucket_app_map c.bucket_triggers_map bucket r.0, r.1)
  | inr new ↦ rw new r
]
bucket_op-IsValid c (unknown_bucket_operation code) app bucket r = r

module _ (w : Wires) (private_ip : Address) (thread_id now : ℕ) where
  add-IsValid :
      (c : Coordinator) (r : TriggerOperationRequest)
      → IsValid c
      → Holds (λ x. IsValid x.0) (add w private_ip thread_id now c r)
  unfolding add
  add-IsValid c r h = elim (Bool-cases (has c.bucket_app_map r.bucket_name)) [
    | inl known ↦
        go known (gen_trigger_pointer w now r.primitive_type r.trigger_name r.primitive) refl
    | inr new ↦ rw (add, new) h
  ]
    where
      go :
          has c.bucket_app_map r.bucket_name ≡ true
          → (o : Option Trigger)
          → gen_trigger_pointer w now r.primitive_type r.trigger_name r.primitive ≡ o
          → Holds (λ x. IsValid x.0) (add w private_ip thread_id now c r)
      go known none e = rw (add, known, e) tt
      go known (some t) e =
          rw (add, known, e)
            (
              RegisteredIn-put_triggers c.bucket_app_map c.bucket_triggers_map r.bucket_name _ h.0
                  (λ new. cc),
              h.1,
            )

  delete-IsValid :
      (c : Coordinator) (r : TriggerOperationRequest)
      → IsValid c
      → IsValid (delete w private_ip thread_id c r).0
  unfolding delete
  delete-IsValid c r h = elim (Bool-cases (has c.bucket_app_map r.bucket_name)) [
    | inl known ↦
        let ts = get_or (get c.bucket_triggers_map r.bucket_name) [] in
        let left =
          RegisteredIn-put_triggers c.bucket_app_map c.bucket_triggers_map r.bucket_name
            (without r.trigger_name ts) h.0 (λ new. cc) in
        elim (Bool-cases (has_trigger r.trigger_name ts)) [
          | inl found ↦ rw (known, found) (left, h.1)
          | inr missing ↦ rw (known, missing) (left, h.1)
        ]
    | inr new ↦ rw new h
  ]

  pub operate-IsValid :
      (c : Coordinator) (type_of : TriggerOperationType) (r : TriggerOperationRequest)
      → IsValid c
      → Holds (λ x. IsValid x.0) (operate w private_ip thread_id now c type_of r)
  unfolding operate
  operate-IsValid c add_trigger r h = add-IsValid c r h
  operate-IsValid c delete_trigger r h = delete-IsValid c r h
  operate-IsValid c (unknown_trigger_operation code) r h = h

push_trigger-IsValid :
    (app : Bytes) (bucket : Bucket) (t : Option Trigger) (c : Coordinator)
    → IsValid c
    → IsValid (push_trigger bucket t (register_bucket app bucket c))
unfolding push_trigger register_bucket
push_trigger-IsValid app bucket none c h =
    (RegisteredIn-put_app c.bucket_app_map c.bucket_triggers_map bucket app h.0, h.1)
push_trigger-IsValid app bucket (some t) c h = (
  RegisteredIn-put_triggers (put c.bucket_app_map bucket app) c.bucket_triggers_map bucket _
      (RegisteredIn-put_app c.bucket_app_map c.bucket_triggers_map bucket app h.0)
      (λ new. let no : true ≡ false = rw get-put_self at new in cc),
  h.1,
)

abbrev pub ValidState : Coordinator × UpdateCoordMsg → Type 0
ValidState (c, msg) = IsValid c

register_bucket_dependency-IsValid :
    (w : Wires) (now : ℕ) (app : Bytes) (s : Coordinator × UpdateCoordMsg)
    (type_of : DependencyType) (dep : DataDependency)
    → ValidState s
    → Holds ValidState (register_bucket_dependency w now app s type_of dep)
unfolding register_bucket_dependency
register_bucket_dependency-IsValid w now app (c, msg) type_of dep h =
    Holds-bind (λ x. Unit) ValidState (get_elem? dep.tgt_functions 0) _ (Holds-trivial _)
      λ tgt u.
        Holds-bind (λ x. Unit) ValidState (dependency_trigger now type_of tgt dep) _
          (Holds-trivial _) λ t v. push_trigger-IsValid app (bucket_of tgt) t c h

register_dependency-IsValid :
    (w : Wires) (now : ℕ) (app : Bytes) (s : Coordinator × UpdateCoordMsg) (dep : DataDependency)
    → ValidState s
    → Holds ValidState (register_dependency w now app s dep)
unfolding register_dependency
register_dependency-IsValid w now app (c, msg) dep h = go dep.type_of refl
  where
    Goal : Type 0
    Goal = Holds ValidState (register_dependency w now app (c, msg) dep)

    added :
        (d : DependencyType)
        → Holds ValidState (register_bucket_dependency w now app (c, msg) d dep)
    added d = register_bucket_dependency-IsValid w now app (c, msg) d dep h

    go : (d : DependencyType) → dep.type_of ≡ d → Goal
    go direct e = rw (register_dependency, e) h
    go many_to_one e = rw (register_dependency, e) (added many_to_one)
    go k_out_of_n e = rw (register_dependency, e) (added k_out_of_n)
    go periodic e = rw (register_dependency, e) (added periodic)
    go (unknown_dependency code) e = rw (register_dependency, e) (added (unknown_dependency code))

pub register_all-IsValid :
    (w : Wires) (now : ℕ) (app : Bytes) (s : Coordinator × UpdateCoordMsg)
    (deps : List DataDependency)
    → ValidState s
    → Holds ValidState (register_all w now app s deps)
unfolding register_all
register_all-IsValid w now app s [] h = h
register_all-IsValid w now app s (dep ∷ deps) h =
    Holds-bind ValidState ValidState (register_dependency w now app s dep) _
      (register_dependency-IsValid w now app s dep h)
      (λ s' h'. register_all-IsValid w now app s' deps h')
