-- ===== src/Common/Decimal.antt =====
-- std::to_string of an unsigned number.
use pheromone.Base.{
  ℕ, zero, suc, ◌+◌, ◌*◌, ◌/◌, ◌%◌, ◌<◌, ◌≡◌, refl, Bytes, [], ◌∷◌, ◌++◌, ltb, true, false, arith,
  ◌-◌, Bool-cases, inl, inr,
}

abbrev digit : ℕ → ℕ
digit d = d + 48

-- `fuel` bounds the number of digits.
unfoldable pub digits : ℕ → ℕ → Bytes
digits zero n = []
digits (suc fuel) n = elim (ltb n 10) [
  | true ↦ digit n ∷ []
  | false ↦ digits fuel (n / 10) ++ digit (n % 10) ∷ []
]

unfoldable pub to_string : ℕ → Bytes
unfolding digits
to_string n = digits (suc n) n

-- The number that a text of digits stands for, read from the left.
abbrev pub value_from : ℕ → Bytes → ℕ
value_from acc [] = acc
value_from acc (c ∷ cs) = value_from (acc * 10 + (c - 48)) cs

value-append :
    (acc : ℕ) (s : Bytes) (c : ℕ) → value_from acc (s ++ c ∷ []) ≡ value_from acc s * 10 + (c - 48)
value-append acc [] c = refl
value-append acc (x ∷ s) c = value-append (acc * 10 + (x - 48)) s c

value-digits : (fuel n : ℕ) → n < fuel → value_from 0 (digits fuel n) ≡ n
unfolding digits
value-digits zero n h = absurd (omega arith)
value-digits (suc fuel) n h = elim (Bool-cases (ltb n 10)) [
  | inl small ↦ rw (small, digits) (omega arith)
  | inr big ↦
      rw (big, digits)
        (rw
          (
            value-append 0 (digits fuel (n / 10)) (digit (n % 10)),
            value-digits fuel (n / 10) (ground arith),
          )
          (omega arith))
]

-- A printed number reads back as itself, so the fuel is always enough and no two numbers are
-- printed alike.
pub value-to_string : (n : ℕ) → value_from 0 (to_string n) ≡ n
unfolding to_string
value-to_string n = value-digits (suc n) n (omega arith)
