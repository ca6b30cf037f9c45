-- ===== src/Coordinator/Calls/Share/Seek.antt =====
-- A node with a slot is found if there is one; and the laws of a vector that is written in place.
use native.Mathlib.Nat.{mod-lt, mod-eq_of_lt, mod-add-mod, add-mod_right}
use native.Mathlib.Decide.{dec_le}
use pheromone.Base.{
  ℕ, zero, suc, ◌+◌, ◌-◌, ◌%◌, ◌<◌, ◌≡◌, refl, ap, ◌∙◌, List, [], ◌∷◌, none, some, arith, length,
  ltb, nat_beq, false, Bool-cases, Option-cases, inl, inr,
}
use pheromone.Coordinator.Calls.Share.{update, entry, seek}

abbrev pub sum : List ℕ → ℕ
sum [] = 0
sum (x ∷ xs) = x + sum xs

pub length-update : (xs : List ℕ) (i : ℕ) (f : ℕ → ℕ) → length (update xs i f) ≡ length xs
length-update [] i f = refl
length-update (x ∷ xs) zero f = refl
length-update (x ∷ xs) (suc i) f = ap suc (length-update xs i f)

pub entry-update_self :
    (xs : List ℕ) (i : ℕ) (f : ℕ → ℕ) → i < length xs → entry (update xs i f) i ≡ f (entry xs i)
entry-update_self [] i f h = elim h [ ]
entry-update_self (x ∷ xs) zero f h = refl
entry-update_self (x ∷ xs) (suc i) f h = entry-update_self xs i f (omega arith)

pub entry-update_ne :
    (xs : List ℕ) (i j : ℕ) (f : ℕ → ℕ) → nat_beq i j ≡ false → entry (update xs i f) j ≡ entry xs j
entry-update_ne [] i j f h = refl
entry-update_ne (x ∷ xs) zero zero f h = cc
entry-update_ne (x ∷ xs) zero (suc j) f h = refl
entry-update_ne (x ∷ xs) (suc i) zero f h = refl
entry-update_ne (x ∷ xs) (suc i) (suc j) f h = entry-update_ne xs i j f (ground arith)

pub sum-add : (xs : List ℕ) (i : ℕ) → i < length xs → sum (update xs i (λ n. n + 1)) ≡ sum xs + 1
sum-add [] i h = elim h [ ]
sum-add (x ∷ xs) zero h = omega arith
sum-add (x ∷ xs) (suc i) h = omega (arith, sum-add xs i (omega arith))

pub sum-take : (xs : List ℕ) (i : ℕ) → 0 < entry xs i → sum (update xs i (λ n. n - 1)) + 1 ≡ sum xs
sum-take [] i h = absurd (omega arith)
sum-take (x ∷ xs) zero h = omega arith
sum-take (x ∷ xs) (suc i) h = omega (arith, sum-take xs i h)

sum_zero : (xs : List ℕ) → ((i : ℕ) → i < length xs → entry xs i ≡ 0) → sum xs ≡ 0
sum_zero [] h = refl
sum_zero (x ∷ xs) h = omega (arith, h 0 (omega arith), sum_zero xs (λ i l. h (suc i) (omega arith)))

-- What `seek` returns is a node with a slot.
pub seek-found :
    (fuel : ℕ) (slots : List ℕ) (idx i : ℕ)
    → idx < length slots
    → seek fuel slots idx ≡ some i
    → (0 < entry slots i) × (i < length slots)
unfolding seek
seek-found zero slots idx i l h = cc
seek-found (suc fuel) slots idx i l h = elim (Bool-cases (ltb 0 (entry slots idx))) [
  | inl e ↦ ground arith
  | inr e ↦
      seek-found fuel slots ((idx + 1) % length slots) i (mod-lt (idx + 1) (omega arith))
        (rw (e, seek) at h)
]

-- If `seek` fails, the nodes that it visited have no slot.
seek-none :
    (fuel : ℕ) (slots : List ℕ) (idx j : ℕ)
    → idx < length slots
    → seek fuel slots idx ≡ none
    → j < fuel
    → entry slots ((idx + j) % length slots) ≡ 0
unfolding seek
seek-none zero slots idx j l h p = absurd (omega arith)
seek-none (suc fuel) slots idx zero l h p = elim (Bool-cases (ltb 0 (entry slots idx))) [
  | inl e ↦ cc (rw (e, seek) at h)
  | inr e ↦
      let same : (idx + 0) % length slots ≡ idx =
        ap (λ (n : ℕ). n % length slots) (omega arith) ∙ mod-eq_of_lt l in
      rw same (ground arith)
]
seek-none (suc fuel) slots idx (suc j) l h p = elim (Bool-cases (ltb 0 (entry slots idx))) [
  | inl e ↦ cc (rw (e, seek) at h)
  | inr e ↦
      let next = (idx + 1) % length slots in
      let same : (next + j) % length slots ≡ (idx + suc j) % length slots =
        mod-add-mod (idx + 1) (length slots) j ∙ ap (λ (n : ℕ). n % length slots) (omega arith) in
      rw (← same) (
        seek-none fuel slots next j (mod-lt (idx + 1) (omega arith)) (rw (e, seek) at h)
          (omega arith))
]

-- A round that starts anywhere visits every node.
pub seek_total :
    (slots : List ℕ) (idx : ℕ)
    → idx < length slots
    → 0 < sum slots
    → (i : ℕ) × (seek (length slots) slots idx ≡ some i)
seek_total slots idx l h = elim (Option-cases (seek (length slots) slots idx)) [
  | inr found ↦ found
  | inl e ↦ absurd (
      omega (
        arith,
        sum_zero slots λ i k. elim (dec_le idx i) [
          | yes le ↦
              let same : (idx + (i - idx)) % length slots ≡ i =
                ap (λ (n : ℕ). n % length slots) (omega arith) ∙ mod-eq_of_lt k in
              rw same at (seek-none (length slots) slots idx (i - idx) l e (omega arith))
          | no gt ↦
              let same : (idx + (length slots + i - idx)) % length slots ≡ i =
                ap (λ (n : ℕ). n % length slots) (omega arith)
                ∙ add-mod_right i (length slots)
                ∙ mod-eq_of_lt k in
              rw same at
                (seek-none (length slots) slots idx (length slots + i - idx) l e (omega arith))
        ],
      ))
]
