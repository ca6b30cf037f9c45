-- ===== src/Common/Stoi.antt =====
-- std::stoi in base 10: leading white space, a sign, digits up to the first other character.
use pheromone.Base.{
  zero, suc, ap, ◌∙◌, ◌<◌, ◌≤◌, ◌≡◌, refl, All, arith, length, ltb, ◌/◌, Bool-cases, inl, inr,
  All-append, length-append, ℕ, ◌+◌, ◌-◌, ◌*◌, ◌%◌, Bytes, Bool, true, false, [], ◌∷◌, Option, none,
  some, leb, nat_beq, ◌&&◌, ◌||◌, if◌then◌else◌,
}
use pheromone.Common.Decimal.{digits, to_string, value_from, value-to_string}

abbrev is_space : ℕ → Bool
is_space c = nat_beq c 32 || (leb 9 c && leb c 13)

abbrev is_digit : ℕ → Bool
is_digit c = leb 48 c && leb c 57

abbrev skip_space : Bytes → Bytes
skip_space [] = []
skip_space (c ∷ s) = let rest = skip_space s in if is_space c then rest else c ∷ s

abbrev digits_from : ℕ → Bytes → ℕ
digits_from acc [] = acc
digits_from acc (c ∷ s) =
    let more = digits_from (acc * 10 + (c - 48)) s in if is_digit c then more else acc

-- `none` is std::invalid_argument.
abbrev magnitude : Bytes → Option ℕ
magnitude [] = none
magnitude (c ∷ s) = if is_digit c then some (digits_from 0 (c ∷ s)) else none

-- The bit pattern of an int; `none` is std::out_of_range.
abbrev in_range : Bool → ℕ → Option ℕ
in_range negative n =
    if negative
    then if leb n 2147483648 then some ((4294967296 - n) % 4294967296) else none
    else if leb n 2147483647
    then some n
    else none

abbrev range_check : Bool → Option ℕ → Option ℕ
range_check negative none = none
range_check negative (some n) = in_range negative n

abbrev signed : Bytes → Option ℕ
signed [] = none
signed (c ∷ s) =
    if nat_beq c b'-'
    then range_check true (magnitude s)
    else if nat_beq c b'+'
    then range_check false (magnitude s)
    else range_check false (magnitude (c ∷ s))

-- The bit pattern of the int; `none` is an exception.
unfoldable pub stoi : Bytes → Option ℕ
stoi s = signed (skip_space s)

abbrev pub IsDigit : ℕ → Type 0
IsDigit c = (48 ≤ c) × (c ≤ 57)

digits-IsDigit : (fuel n : ℕ) → All IsDigit (digits fuel n)
unfolding digits
digits-IsDigit zero n = tt
digits-IsDigit (suc fuel) n = elim (Bool-cases (ltb n 10)) [
  | inl small ↦ rw (small, digits) ((omega arith, ground arith), tt)
  | inr big ↦
      rw (big, digits)
        (All-append IsDigit (digits fuel (n / 10)) ((n % 10 + 48) ∷ [])
          (digits-IsDigit fuel (n / 10)) ((omega arith, omega arith), tt))
]

length-digits : (fuel n : ℕ) → 0 < length (digits (suc fuel) n)
unfolding digits
length-digits fuel n = elim (Bool-cases (ltb n 10)) [
  | inl small ↦ rw (small, digits) (omega arith)
  | inr big ↦
      rw (big, digits) (omega (arith, length-append (digits fuel (n / 10)) ((n % 10 + 48) ∷ [])))
]

pub to_string-IsDigit : (n : ℕ) → All IsDigit (to_string n)
unfolding to_string
to_string-IsDigit n = digits-IsDigit (suc n) n

digits_from-value : (acc : ℕ) (s : Bytes) → All IsDigit s → digits_from acc s ≡ value_from acc s
digits_from-value acc [] h = refl
digits_from-value acc (c ∷ s) h =
    ground (arith, h.0.0, h.0.1, digits_from-value (acc * 10 + (c - 48)) s h.1)

stoi-digits :
    (s : Bytes)
    → 0 < length s
    → All IsDigit s
    → value_from 0 s < 2147483648
    → stoi s ≡ some (value_from 0 s)
unfolding stoi
stoi-digits [] p h small = absurd (omega arith)
stoi-digits (c ∷ s) p h small = ground (arith, h.0.0, h.0.1, digits_from-value 0 (c ∷ s) h, small)

-- A number that an int can hold is read back as it was printed.
pub stoi-to_string : (n : ℕ) → n < 2147483648 → stoi (to_string n) ≡ some n
unfolding to_string
stoi-to_string n h =
    stoi-digits (to_string n) (length-digits n n) (to_string-IsDigit n) (rw (value-to_string n) h)
    ∙ ap some (value-to_string n)
