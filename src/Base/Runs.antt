-- ===== src/Base/Runs.antt =====
-- Code that changes a state and puts out effects in order, and may crash.
use mathlib.Core.List.{List, [], ◌∷◌, ◌++◌}
use mathlib.Core.Option.{Option, none, some}
use mathlib.Core.Bool.{Bool, true, false}
use mathlib.Core.Path.{◌≡◌}
use pheromone.Base.Tests.{if◌then◌else◌}
use pheromone.Base.Options.{◌>>=◌, Holds, Holds-bind}

-- `none` is a crash.
abbrev pub Run : Type 0 → Type 0 → Type 0
Run S E = S → Option (S × List E)

module _ {S E : Type 0} where
  abbrev pub skip : Run S E
  skip s = some (s, [])

  abbrev pub crash : Run S E
  crash s = none

  abbrev pub emit : E → Run S E
  emit e s = some (s, e ∷ [])

  abbrev pub modify : (S → S) → Run S E
  modify f s = some (f s, [])

  -- A value that may be missing, and what goes on with it.
  abbrev pub given {ℓ} : {A : Type ℓ} → Option A → (A → Run S E) → Run S E
  given none f s = none
  given (some a) f s = f a s

  infixr 10 ◌▷◌
  unfoldable pub ◌▷◌ : Run S E → Run S E → Run S E
  ◌▷◌ m n s = m s >>= λ r. n r.0 >>= λ q. some (q.0, r.1 ++ q.1)

  unfoldable pub each {ℓ} : {A : Type ℓ} → (A → Run S E) → List A → Run S E
  unfolding ◌▷◌
  each f [] s = some (s, [])
  each f (a ∷ rest) s = (f a ▷ each f rest) s

-- What holds between the states before and after a run and its effects.
module _ {S E : Type 0} (P : S → S → List E → Type 0) where
  abbrev pub Keeps : S → Run S E → Type 0
  Keeps s m = Holds (λ r. P s r.0 r.1) (m s)

  pub Keeps-given {ℓ} :
      {A : Type ℓ} (o : Option A) (f : A → Run S E) (s : S)
      → ((a : A) → Keeps s (f a))
      → Keeps s (given o f)
  Keeps-given none f s k = tt
  Keeps-given (some a) f s k = k a

  pub Keeps-if :
      (b : Bool) (m n : Run S E) (s : S) → Keeps s m → Keeps s n → Keeps s (if b then m else n)
  Keeps-if true m n s k l = k
  Keeps-if false m n s k l = l

  pub Keeps-else :
      (b : Bool) (m n : Run S E) (s : S) → b ≡ false → Keeps s n → Keeps s (if b then m else n)
  Keeps-else b m n s e l = rw e l

  module _ (still : (s : S) → P s s [])
      (joins : (s t u : S) (es fs : List E) → P s t es → P t u fs → P s u (es ++ fs)) where
    pub Keeps-then : (m n : Run S E) (s : S) → Keeps s m → ((t : S) → Keeps t n) → Keeps s (m ▷ n)
    unfolding ◌▷◌
    Keeps-then m n s k l =
        Holds-bind (λ r. P s r.0 r.1) (λ r. P s r.0 r.1) (m s) _ k
          λ r p.
            Holds-bind (λ q. P r.0 q.0 q.1) (λ q. P s q.0 q.1) (n r.0) _ (l r.0)
              λ q p'. joins s r.0 q.0 r.1 q.1 p p'

    pub Keeps-each {ℓ} :
        {A : Type ℓ} (f : A → Run S E) (xs : List A) (s : S)
        → ((a : A) (t : S) → Keeps t (f a))
        → Keeps s (each f xs)
    unfolding each
    Keeps-each f [] s k = still s
    Keeps-each f (a ∷ rest) s k =
        Keeps-then (f a) (each f rest) s (k a s) (λ t. Keeps-each f rest t k)
