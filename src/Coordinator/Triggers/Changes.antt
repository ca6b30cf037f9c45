-- ===== src/Coordinator/Triggers/Changes.antt =====
-- Adding and deleting triggers.
use mathlib.Core.List.{append-nil}
use pheromone.Base.{
  Bool, ℕ, ◌≡◌, refl, Bytes, Bucket, Address, List, [], ◌∷◌, ◌++◌, true, false, some, arith,
  bytes_eq, ◌==◌, ==_iff, ◌||◌, Bool-cases, inl, inr,
}
use pheromone.Base.Maps.{Map, get, put, has, get_or, get-put, get-put_self}
use pheromone.Trigger.Types.{
  PrimitiveType, immediate, by_name, by_batch_size, by_set, dynamic_group, redundant, by_time,
  other,
}
use pheromone.Trigger.Dispatch.{Trigger, set_trigger_option}
use pheromone.Trigger.Primitives.{Wires, gen_trigger_pointer}
use pheromone.Coordinator.Types.{
  Coordinator, KvsError, success, UpdateCoordMsg, TriggerOperationRequest,
}
use pheromone.Coordinator.Triggers.{without, has_trigger, add, delete}

has_trigger-without :
    (name : Bytes) (ts : List Trigger) → has_trigger name (without name ts) ≡ false
unfolding has_trigger without
has_trigger-without name [] = refl
has_trigger-without name (t ∷ ts) = ground (arith, has_trigger-without name ts)

without_absent :
    (name : Bytes) (ts : List Trigger) → has_trigger name ts ≡ false → without name ts ≡ ts
unfolding has_trigger without
without_absent name [] h = refl
without_absent name (t ∷ ts) h = ground (arith, without_absent name ts)

without-append :
    (name : Bytes) (xs ys : List Trigger)
    → without name (xs ++ ys) ≡ without name xs ++ without name ys
unfolding without
without-append name [] ys = refl
without-append name (t ∷ xs) ys = ground (arith, without-append name xs ys)

-- The triggers of a bucket.
abbrev pub triggers_of : Coordinator → Bucket → List Trigger
triggers_of c bucket = get_or (get c.bucket_triggers_map bucket) []

-- One of the seven types that gen_trigger_pointer makes a trigger for.
abbrev pub is_known : PrimitiveType → Bool
is_known (other code) = false
is_known _ = true

gen_trigger_pointer_known :
    (w : Wires) (now : ℕ) (type_of : PrimitiveType) (name serialized : Bytes)
    → is_known type_of ≡ true
    → (t : Trigger) × (gen_trigger_pointer w now type_of name serialized ≡ some t)
      × (t.trigger_name ≡ name)
unfolding gen_trigger_pointer
gen_trigger_pointer_known w now immediate name serialized h = (_, refl, refl)
gen_trigger_pointer_known w now by_name name serialized h = (_, refl, refl)
gen_trigger_pointer_known w now by_batch_size name serialized h = (_, refl, refl)
gen_trigger_pointer_known w now by_set name serialized h = (_, refl, refl)
gen_trigger_pointer_known w now dynamic_group name serialized h = (_, refl, refl)
gen_trigger_pointer_known w now redundant name serialized h = (_, refl, refl)
gen_trigger_pointer_known w now by_time name serialized h = (_, refl, refl)
gen_trigger_pointer_known w now (other code) name serialized h = cc

has_trigger-append :
    (name : Bytes) (xs ys : List Trigger)
    → has_trigger name (xs ++ ys) ≡ (has_trigger name xs || has_trigger name ys)
unfolding has_trigger
has_trigger-append name [] ys = refl
has_trigger-append name (t ∷ xs) ys = ground (arith, has_trigger-append name xs ys)

-- One more trigger, found by its name, and gone without it.
found_last :
    (name : Bytes) (ts : List Trigger) (t : Trigger)
    → t.trigger_name ≡ name
    → has_trigger name (ts ++ t ∷ []) ≡ true
unfolding has_trigger
found_last name ts t same =
    ground (arith, has_trigger-append name ts (t ∷ []), ==_iff t.trigger_name name)

gone_last :
    (name : Bytes) (ts : List Trigger) (t : Trigger)
    → t.trigger_name ≡ name
    → has_trigger name ts ≡ false
    → without name (ts ++ t ∷ []) ≡ ts
unfolding without
gone_last name ts t same fresh =
    rw (without-append, without_absent name ts fresh, (==_iff t.trigger_name name).1 same)
      (append-nil ts)

-- Putting back what a key had undoes a change.
restored :
    (m : Map Bucket (List Trigger)) (b bucket : Bucket) (ts : List Trigger)
    → get_or (get (put (put m b ts) b (get_or (get m b) [])) bucket) [] ≡ get_or (get m bucket) []
restored m b bucket ts = elim (Bool-cases (b == bucket)) [
  | inl hit ↦ rw (get-put, hit, (==_iff b bucket).0 hit) refl
  | inr miss ↦ rw (get-put, miss, get-put, miss) refl
]

module _ (w : Wires) (private_ip : Address) (thread_id : ℕ) where
  abbrev pub Undone : Coordinator → TriggerOperationRequest → Coordinator × KvsError → Type 0
  Undone c r (c', error) =
      (error ≡ success)
      × (has_trigger r.trigger_name (triggers_of c' r.bucket_name) ≡ true)
      × ((bucket : Bucket)
          → triggers_of (delete w private_ip thread_id c' r).0 bucket ≡ triggers_of c bucket)

  -- The state and the answer after a trigger has been put at the end of a bucket's triggers.
  pushed-Undone :
      (c : Coordinator) (r : TriggerOperationRequest) (t : Trigger)
      → has c.bucket_app_map r.bucket_name ≡ true
      → has_trigger r.trigger_name (triggers_of c r.bucket_name) ≡ false
      → t.trigger_name ≡ r.trigger_name
      → Undone c r (
        record c {
          bucket_triggers_map =
              put c.bucket_triggers_map r.bucket_name (triggers_of c r.bucket_name ++ t ∷ []);
        },
        success,
      )
  unfolding delete
  pushed-Undone c r t known fresh same =
      let ts = triggers_of c r.bucket_name in
      let found = found_last r.trigger_name ts t same in
      let here = get-put_self c.bucket_triggers_map r.bucket_name (ts ++ t ∷ []) in
      (
        refl,
        rw here found,
        λ bucket.
            rw (known, here, found)
              (rw (gone_last r.trigger_name ts t same fresh)
                (restored c.bucket_triggers_map r.bucket_name bucket (ts ++ t ∷ []))),
      )

  answered :
      (c : Coordinator) (r : TriggerOperationRequest) (x : Coordinator × KvsError × UpdateCoordMsg)
      → Undone c r (x.0, x.1)
      → (c' : Coordinator) × (error : KvsError) × (msg : UpdateCoordMsg) × (some x
          ≡ some (c', error, msg))
        × Undone c r (c', error)
  answered c r (c', error, msg) undone = (c', error, msg, refl, undone)

  -- Adding a trigger of one of the seven types to a registered bucket that has none of its name does
  -- not crash and succeeds, the bucket then has a trigger of the name, and deleting that leaves every
  -- bucket its triggers of before.
  pub delete-add :
      (now : ℕ) (c : Coordinator) (r : TriggerOperationRequest)
      → has c.bucket_app_map r.bucket_name ≡ true
      → has_trigger r.trigger_name (triggers_of c r.bucket_name) ≡ false
      → is_known r.primitive_type ≡ true
      → (c' : Coordinator) × (error : KvsError) × (msg : UpdateCoordMsg) × (add w private_ip
            thread_id now c r
          ≡ some (c', error, msg))
        × Undone c r (c', error)
  unfolding add set_trigger_option
  delete-add now c r known fresh type_known =
      let (t, e, n) =
        gen_trigger_pointer_known w now r.primitive_type r.trigger_name r.primitive type_known in
      rw (add, known, e)
        (answered c r _ (pushed-Undone c r (set_trigger_option t r.trigger_option) known fresh n))
