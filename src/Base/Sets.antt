-- ===== src/Base/Sets.antt =====
-- `set<T>` (std::unordered_set) as a list without repetition. C++ leaves the order of iteration
-- open; the list is that order, and a new element goes to its end.
use Prim.Native.Nat.{suc, ◌≤◌, ◌<◌}
use mathlib.Core.Path.{◌≡◌, refl}
use mathlib.Core.Logic.{◌↔◌, inl, inr}
use mathlib.Core.Bool.{Bool, true, false, ◌||◌, ◌&&◌}
use mathlib.Core.List.{List, [], ◌∷◌, ◌++◌}
use native.Mathlib.Omega.{arith}
use pheromone.Base.Tests.{if◌then◌else◌, Bool-cases, nat_beq}
use pheromone.Base.Lists.{length}
use pheromone.Base.Equality.{Eq, ◌==◌, ==_iff, ==_refl, ==_comm}

module _ {ℓ} {A : Type ℓ} ⦃e : Eq A⦄ where
  unfoldable pub contains : List A → A → Bool
  contains [] a = false
  contains (x ∷ xs) a = x == a || contains xs a

  unfoldable pub insert : List A → A → List A
  insert [] a = a ∷ []
  insert (x ∷ xs) a = if x == a then x ∷ xs else x ∷ insert xs a

  unfoldable pub erase : List A → A → List A
  erase [] a = []
  erase (x ∷ xs) a = if x == a then xs else x ∷ erase xs a

  -- The set with the elements of a list, inserted in turn.
  unfoldable pub insert_all : List A → List A → List A
  insert_all s [] = s
  insert_all s (a ∷ rest) = insert_all (insert s a) rest

  abbrev pub Distinct : List A → Type 0
  Distinct [] = Unit
  Distinct (x ∷ xs) = (contains xs x ≡ false) × Distinct xs

  -- Every element of the first list is in the second.
  abbrev pub IsSubset : List A → List A → Type 0
  IsSubset [] ys = Unit
  IsSubset (x ∷ xs) ys = (contains ys x ≡ true) × IsSubset xs ys

  -- Whether every element of the first list is in the second.
  abbrev pub covers : List A → List A → Bool
  covers [] ys = true
  covers (x ∷ xs) ys = contains ys x && covers xs ys

  pub covers_iff : (xs ys : List A) → (covers xs ys ≡ true) ↔ IsSubset xs ys
  covers_iff [] ys = ground arith
  covers_iff (x ∷ xs) ys = ground (arith, covers_iff xs ys)

  pub contains-insert :
      (xs : List A) (a b : A) → contains (insert xs a) b ≡ (a == b || contains xs b)
  unfolding contains insert
  contains-insert [] a b = refl
  contains-insert (x ∷ xs) a b =
      ground (arith, contains-insert xs a b, ==_iff x a, ==_iff x b, ==_iff a b)

  pub contains-append :
      (xs ys : List A) (a : A) → contains (xs ++ ys) a ≡ (contains xs a || contains ys a)
  unfolding contains
  contains-append [] ys a = refl
  contains-append (x ∷ xs) ys a = ground (arith, contains-append xs ys a)

  pub contains-insert_self : (xs : List A) (a : A) → contains (insert xs a) a ≡ true
  contains-insert_self xs a = ground (arith, contains-insert xs a a, ==_refl a)

  pub length-insert :
      (xs : List A) (a : A)
      → length (insert xs a) ≡ (if contains xs a then length xs else suc (length xs))
  unfolding contains insert
  length-insert [] a = refl
  length-insert (x ∷ xs) a = ground (arith, length-insert xs a)

  pub insert-ne-nil : (xs : List A) (a : A) → 0 < length (insert xs a)
  unfolding insert
  insert-ne-nil [] a = omega arith
  insert-ne-nil (x ∷ xs) a = ground arith

  pub Distinct-insert : (xs : List A) (a : A) → Distinct xs → Distinct (insert xs a)
  unfolding contains insert
  Distinct-insert [] a d = (refl, tt)
  Distinct-insert (x ∷ xs) a d =
      ground (arith, Distinct-insert xs a d.1, contains-insert xs a x, ==_comm x a)

  -- Inserting an element that is not there appends it.
  pub insert_new : (xs : List A) (a : A) → contains xs a ≡ false → insert xs a ≡ xs ++ a ∷ []
  unfolding contains insert
  insert_new [] a h = refl
  insert_new (x ∷ xs) a h = ground (arith, insert_new xs a)

  pub insert_old : (xs : List A) (a : A) → contains xs a ≡ true → insert xs a ≡ xs
  unfolding contains insert
  insert_old [] a h = cc
  insert_old (x ∷ xs) a h = ground (arith, insert_old xs a)

  pub contains-erase :
      (xs : List A) (a b : A)
      → Distinct xs
      → contains (erase xs a) b ≡ (if a == b then false else contains xs b)
  unfolding contains erase
  contains-erase [] a b d = ground arith
  contains-erase (x ∷ xs) a b d =
      ground (arith, contains-erase xs a b d.1, ==_iff x a, ==_iff x b, ==_iff a b)

  length-erase :
      (xs : List A) (a : A) → contains xs a ≡ true → suc (length (erase xs a)) ≡ length xs
  unfolding contains erase
  length-erase [] a h = cc
  length-erase (x ∷ xs) a h = ground (arith, length-erase xs a)

  contains-erase_ne :
      (xs : List A) (a b : A)
      → contains xs b ≡ true
      → (a == b) ≡ false
      → contains (erase xs a) b ≡ true
  unfolding contains erase
  contains-erase_ne [] a b h ne = cc
  contains-erase_ne (x ∷ xs) a b h ne =
      ground (arith, contains-erase_ne xs a b, ==_iff x a, ==_iff x b, ==_iff a b)

  contains_of_erase :
      (xs : List A) (a b : A) → contains (erase xs a) b ≡ true → contains xs b ≡ true
  unfolding contains erase
  contains_of_erase [] a b h = h
  contains_of_erase (x ∷ xs) a b h = ground (arith, contains_of_erase xs a b)

  IsSubset-erase :
      (xs ys : List A) (a : A) → contains xs a ≡ false → IsSubset xs ys → IsSubset xs (erase ys a)
  unfolding contains
  IsSubset-erase [] ys a n s = tt
  IsSubset-erase (x ∷ xs) ys a n s =
      ground (arith, IsSubset-erase xs ys a, contains-erase_ne ys a x, ==_comm x a)

  -- A set of as many elements as a list that holds them all has every element of the list.
  pub covers_of_length :
      (xs ys : List A) (b : A)
      → Distinct xs
      → IsSubset xs ys
      → length ys ≤ length xs
      → contains ys b ≡ true
      → contains xs b ≡ true
  unfolding contains
  covers_of_length [] [] b d s l h = h
  covers_of_length [] (y ∷ ys) b d s l h = absurd (omega arith)
  covers_of_length (x ∷ xs) ys b d s l h = elim (Bool-cases (x == b)) [
    | inl hit ↦ rw hit
    | inr miss ↦ rw miss (
        covers_of_length xs (erase ys x) b d.1 (IsSubset-erase xs ys x d.0 s.1)
          (omega (arith, length-erase ys x s.0)) (contains-erase_ne ys x b h miss))
  ]

  -- A set within a list is no longer than it.
  pub length-le_of_subset : (xs ys : List A) → Distinct xs → IsSubset xs ys → length xs ≤ length ys
  length-le_of_subset [] ys d s = omega arith
  length-le_of_subset (x ∷ xs) ys d s = omega (
    arith,
    length-le_of_subset xs (erase ys x) d.1 (IsSubset-erase xs ys x d.0 s.1),
    length-erase ys x s.0,
  )

  pub IsSubset-contains :
      (xs ys : List A) (b : A) → IsSubset xs ys → contains xs b ≡ true → contains ys b ≡ true
  unfolding contains
  IsSubset-contains [] ys b s h = cc
  IsSubset-contains (x ∷ xs) ys b s h = elim (Bool-cases (x == b)) [
    | inl hit ↦ rw (← ((==_iff x b).0 hit)) s.0
    | inr miss ↦ IsSubset-contains xs ys b s.1 (rw miss at h)
  ]

  pub IsSubset-intro :
      (xs ys : List A) → ((b : A) → contains xs b ≡ true → contains ys b ≡ true) → IsSubset xs ys
  unfolding contains
  IsSubset-intro [] ys f = tt
  IsSubset-intro (x ∷ xs) ys f =
      (f x (rw (==_refl x)), IsSubset-intro xs ys (λ b h. f b (ground arith)))

  pub IsSubset-insert :
      (xs ys : List A) (a : A) → IsSubset xs ys → contains ys a ≡ true → IsSubset (insert xs a) ys
  unfolding insert
  IsSubset-insert [] ys a s h = (h, tt)
  IsSubset-insert (x ∷ xs) ys a s h = ground (arith, IsSubset-insert xs ys a s.1 h)

  -- A set within another one has all of it exactly when the two have the same size.
  pub length-eq-covers :
      (xs ys : List A)
      → Distinct xs
      → Distinct ys
      → IsSubset xs ys
      → nat_beq (length xs) (length ys) ≡ covers ys xs
  length-eq-covers xs ys dx dy s = elim (Bool-cases (covers ys xs)) [
    | inl all ↦
        let le = length-le_of_subset ys xs dy ((covers_iff ys xs).0 all) in
        let ge = length-le_of_subset xs ys dx s in ground arith
    | inr some_missing ↦ elim (Bool-cases (nat_beq (length xs) (length ys))) [
      | inl e ↦
          let all = IsSubset-intro ys xs (λ b m. covers_of_length xs ys b dx s (ground arith) m) in
          cc ((covers_iff ys xs).1 all)
      | inr e ↦ cc
    ]
  ]
