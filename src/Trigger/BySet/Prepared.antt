-- ===== src/Trigger/BySet/Prepared.antt =====
-- When the function is triggered, and what the other sessions notice of it.
use pheromone.Base.{
  ◌<◌, ◌≡◌, refl, Bytes, Key, Session, Bool, true, false, List, [], ◌∷◌, ◌&&◌, arith, bytes_eq,
  length, nat_beq, if◌then◌else◌, ◌==◌, ==_iff, Bool-cases, inl, inr, ◌⊎◌,
}
use pheromone.Base.Sets
use pheromone.Base.Sets.{contains, insert, IsSubset, covers, covers_iff}
use pheromone.Base.Maps.{get-put, get-erase}
use pheromone.Common.{BucketKey}
use pheromone.Trigger.BySet.{BySetTrigger, prepared, for_session, action_for_new_object}

-- The keys prepared for a session are some of the key set, each once, and not all of it.
abbrev pub IsPartial : List Key → List Key → Type 0
IsPartial key_set keys =
    Sets.Distinct keys × IsSubset keys key_set × ((keys ≡ []) ⊎ (length keys < length key_set))

pub record IsValid (t : BySetTrigger) : Type 0 where
  pub distinct : Sets.Distinct t.key_set
  pub partial : (s : Session) → IsPartial t.key_set (prepared t s)

module _ (target : Bytes) (t : BySetTrigger) (k : BucketKey) (v : IsValid t) where
  abbrev keys : List Key
  keys = insert (prepared t k.session) k.key

  keys-Distinct : Sets.Distinct keys
  keys-Distinct = Sets.Distinct-insert _ k.key (v.partial k.session).0

  keys-IsSubset : contains t.key_set k.key ≡ true → IsSubset keys t.key_set
  keys-IsSubset h = Sets.IsSubset-insert _ t.key_set k.key (v.partial k.session).1 h

  IsPartial-keys :
      contains t.key_set k.key ≡ true
      → nat_beq (length keys) (length t.key_set) ≡ false
      → IsPartial t.key_set keys
  IsPartial-keys h e =
      let le = Sets.length-le_of_subset keys t.key_set keys-Distinct (keys-IsSubset h) in
      (keys-Distinct, keys-IsSubset h, inr (ground arith))

  -- A valid trigger stays valid, whatever object arrives.
  pub action_for_new_object-IsValid : IsValid (action_for_new_object target t k).0
  unfolding action_for_new_object
  action_for_new_object-IsValid = elim (Bool-cases (contains t.key_set k.key)) [
    | inr out ↦ rw (out, action_for_new_object) v
    | inl in_set ↦ elim (Bool-cases (nat_beq (length keys) (length t.key_set))) [
      | inl full ↦
          rw (in_set, action_for_new_object)
            (rw (full, action_for_new_object)
              record {
                distinct = v.distinct;
                partial = λ s. rw get-erase (elim (Bool-cases (k.session == s)) [
                  | inl here ↦ rw here (tt, tt, inl refl)
                  | inr there ↦ rw there (v.partial s)
                ]);
              })
      | inr more ↦
          rw (in_set, action_for_new_object)
            (rw (more, action_for_new_object)
              record {
                distinct = v.distinct;
                partial = λ s. rw get-put (elim (Bool-cases (k.session == s)) [
                  | inl here ↦ rw here (IsPartial-keys in_set more)
                  | inr there ↦ rw there (v.partial s)
                ]);
              })
    ]
  ]

  -- Every key of the set has arrived in the session, counting this object.
  abbrev pub complete : Bool
  complete = contains t.key_set k.key && covers t.key_set (insert (prepared t k.session) k.key)

  -- The test on the sizes is the test on the keys.
  full-eq-covers :
      contains t.key_set k.key ≡ true
      → nat_beq (length keys) (length t.key_set) ≡ covers t.key_set keys
  full-eq-covers h = Sets.length-eq-covers keys t.key_set keys-Distinct v.distinct (keys-IsSubset h)

  -- On a valid trigger, an object leads to an action, over all keys of the set in its session,
  -- exactly when its key is in the set and with it every key of the set has arrived in its session;
  -- the session then starts anew. Otherwise a key of the set is added to the session's prepared
  -- keys. The prepared keys of the other sessions stay as they are, and so does the key set.
  pub action_for_new_object-fires :
      ((action_for_new_object target t k).1 ≡ (
        if complete
        then record { function = target; session_keys = for_session k.session t.key_set } ∷ []
        else []))
      × ((s : Session)
          → prepared (action_for_new_object target t k).0 s ≡ (
              if k.session == s
              then if complete
                then []
                else if contains t.key_set k.key
                then insert (prepared t s) k.key
                else prepared t s
              else prepared t s))
      × ((action_for_new_object target t k).0.key_set ≡ t.key_set)
  unfolding action_for_new_object
  action_for_new_object-fires = elim (Bool-cases (contains t.key_set k.key)) [
    | inr out ↦ rw (out, action_for_new_object) (refl, (λ s. ground arith), refl)
    | inl in_set ↦
        rw (in_set, action_for_new_object)
          (rw (full-eq-covers in_set, action_for_new_object)
            (elim (Bool-cases (covers t.key_set keys)) [
              | inl full ↦
                  rw (full, action_for_new_object) (refl, (λ s. rw get-erase (ground arith)), refl)
              | inr more ↦
                  rw (more, action_for_new_object)
                    (refl, (λ s. rw get-put (ground (arith, ==_iff k.session s))), refl)
            ]))
  ]
