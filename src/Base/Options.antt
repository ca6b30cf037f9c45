-- ===== src/Base/Options.antt =====
-- Chains of results that may be absent.
use mathlib.Core.Bool.{Bool, true, false}
use mathlib.Core.Option.{Option, none, some}
use pheromone.Base.Tests.{if◌then◌else◌}

infixl 5 ◌>>=◌
abbrev pub ◌>>=◌ {ℓ κ} : {A : Type ℓ} {B : Type κ} → Option A → (A → Option B) → Option B
none >>= f = none
some a >>= f = f a

-- The result, if there is one, has the property.
abbrev pub Holds {ℓ} : {A : Type ℓ} → (A → Type 0) → Option A → Type 0
Holds P none = Unit
Holds P (some a) = P a

pub Holds-bind {ℓ κ} :
    {A : Type ℓ} {B : Type κ} (P : A → Type 0) (Q : B → Type 0) (o : Option A) (f : A → Option B)
    → Holds P o
    → ((a : A) → P a → Holds Q (f a))
    → Holds Q (o >>= f)
Holds-bind P Q none f h g = tt
Holds-bind P Q (some a) f h g = g a h

pub Holds-trivial {ℓ} : {A : Type ℓ} (o : Option A) → Holds (λ a. Unit) o
Holds-trivial none = tt
Holds-trivial (some a) = tt

pub Holds-if {ℓ} :
    {A : Type ℓ} (P : A → Type 0) (b : Bool) (x y : Option A)
    → Holds P x
    → Holds P y
    → Holds P (if b then x else y)
Holds-if P true x y h k = h
Holds-if P false x y h k = k

pub Holds-both {ℓ} :
    {A : Type ℓ} (P Q R : A → Type 0) (o : Option A)
    → Holds P o
    → Holds Q o
    → ((a : A) → P a → Q a → R a)
    → Holds R o
Holds-both P Q R none h k g = tt
Holds-both P Q R (some a) h k g = g a h k

-- A hypothesis that does not depend on the result.
pub Holds-assume {ℓ} :
    {A : Type ℓ} (H : Type 0) (P : A → Type 0) (o : Option A)
    → (H → Holds P o)
    → Holds (λ a. H → P a) o
Holds-assume H P none k = tt
Holds-assume H P (some a) k = k
