-- ===== src/Base/Equality.antt =====
-- Types with a Boolean equality test, and the strings of the program: lists of byte values.
use Prim.Native.Char.{code}
use Prim.Native.Nat.{ℕ}
use Prim.Native.String.{String}
use mathlib.Core.Path.{◌≡◌, refl, subst}
use mathlib.Core.Logic.{◌↔◌}
use mathlib.Core.Bool.{Bool, true, false, ◌&&◌}
use mathlib.Core.List.{List, [], ◌∷◌}
use native.Mathlib.Omega.{arith}
use pheromone.Base.Tests.{nat_beq, nat_beq_iff}

-- operator== of a type: it holds of every value and itself, and of no two others.
pub record Eq {ℓ} (A : Type ℓ) : Type ℓ where
  pub is_same : A → A → Bool
  pub same_self : (x : A) → is_same x x ≡ true
  pub same_only : (x y : A) → is_same x y ≡ true → x ≡ y

module _ {ℓ} {A : Type ℓ} ⦃eq : Eq A⦄ where
  infix 50 ◌==◌
  abbrev pub ◌==◌ : A → A → Bool
  x == y = eq.is_same x y

  pub ==_refl : (x : A) → (x == x) ≡ true
  ==_refl = eq.same_self

  pub ==_iff : (x y : A) → ((x == y) ≡ true) ↔ (x ≡ y)
  ==_iff x y = (eq.same_only x y, λ p. subst (λ z. (x == z) ≡ true) p (eq.same_self x))

  pub ==_comm : (x y : A) → (x == y) ≡ (y == x)
  ==_comm x y = ground (arith, ==_iff x y, ==_iff y x)

-- A test that decides equality gives an operator==.
abbrev from_iff {ℓ} :
    {A : Type ℓ} (test : A → A → Bool) → ((x y : A) → (test x y ≡ true) ↔ (x ≡ y)) → Eq A
from_iff test iff = record {
  is_same = test;
  same_self = λ x. (iff x x).1 refl;
  same_only = λ x y. (iff x y).0;
}

instance abbrev pub nat_eq : Eq ℕ
nat_eq = from_iff nat_beq nat_beq_iff

-- types.hpp: `string` and its synonyms.
abbrev pub Bytes : Type 0
Bytes = List ℕ

abbrev pub Address : Type 0
Address = Bytes

abbrev pub Key : Type 0
Key = Bytes

abbrev pub Bucket : Type 0
Bucket = Bytes

abbrev pub Session : Type 0
Session = Bytes

abbrev pub bytes_beq : Bytes → Bytes → Bool
bytes_beq [] [] = true
bytes_beq (x ∷ xs) (y ∷ ys) = nat_beq x y && bytes_beq xs ys
bytes_beq _ _ = false

pub bytes_beq_iff : (a b : Bytes) → (bytes_beq a b ≡ true) ↔ (a ≡ b)
bytes_beq_iff [] [] = ground arith
bytes_beq_iff [] (y ∷ ys) = ground arith
bytes_beq_iff (x ∷ xs) [] = ground arith
bytes_beq_iff (x ∷ xs) (y ∷ ys) = ground (arith, bytes_beq_iff xs ys, nat_beq_iff x y)

instance abbrev pub bytes_eq : Eq Bytes
bytes_eq = from_iff bytes_beq bytes_beq_iff

-- A text literal as bytes (all literals of the source are ASCII).
abbrev pub bytes : String → Bytes
bytes String.[] = []
bytes (String.◌∷◌ c s) = code c ∷ bytes s
