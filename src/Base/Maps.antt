-- ===== src/Base/Maps.antt =====
-- `map<K, V>` (std::unordered_map) as an association list. C++ leaves the order of iteration open;
-- the list is that order: an assignment to a key keeps its place, a new key goes to the end.
use mathlib.Core.Path.{◌≡◌, refl}
use mathlib.Core.Bool.{Bool, true, false}
use mathlib.Core.List.{List, [], ◌∷◌}
use mathlib.Core.Option.{Option, none, some}
use native.Mathlib.Omega.{arith}
use pheromone.Base.Tests.{if◌then◌else◌}
use pheromone.Base.Equality.{Eq, ◌==◌, ==_iff, ==_refl, ==_comm}

abbrev pub Map {ℓ κ} : Type ℓ → Type κ → Type (ℓ ⊔ κ)
Map K V = List (K × V)

abbrev pub get_or {ℓ} : {A : Type ℓ} → Option A → A → A
get_or none d = d
get_or (some a) d = a

abbrev pub is_some {ℓ} : {A : Type ℓ} → Option A → Bool
is_some none = false
is_some (some a) = true

-- m.empty()
abbrev pub is_empty {ℓ} : {A : Type ℓ} → List A → Bool
is_empty [] = true
is_empty (x ∷ xs) = false

module _ {ℓ κ} {K : Type ℓ} {V : Type κ} ⦃e : Eq K⦄ where
  -- m.find(k)
  unfoldable pub get : Map K V → K → Option V
  get [] k = none
  get ((j, v) ∷ m) k = if j == k then some v else get m k

  -- m[k] = v
  unfoldable pub put : Map K V → K → V → Map K V
  put [] k v = (k, v) ∷ []
  put ((j, w) ∷ m) k v = if j == k then (j, v) ∷ m else (j, w) ∷ put m k v

  -- m.erase(k)
  unfoldable pub erase : Map K V → K → Map K V
  erase [] k = []
  erase ((j, w) ∷ m) k = let rest = erase m k in if j == k then rest else (j, w) ∷ rest

  -- m.find(k) != m.end()
  abbrev pub has : Map K V → K → Bool
  has m k = is_some (get m k)

  abbrev pub Distinct : Map K V → Type κ
  Distinct [] = Unit
  Distinct ((k, v) ∷ m) = (get m k ≡ none) × Distinct m

  pub get-put :
      (m : Map K V) (k j : K) (v : V) → get (put m k v) j ≡ (if k == j then some v else get m j)
  unfolding get put
  get-put [] k j v = refl
  get-put ((i, w) ∷ m) k j v = ground (arith, ==_iff k j, ==_iff i k, ==_iff i j, get-put m k j v)

  pub get-erase : (m : Map K V) (k j : K) → get (erase m k) j ≡ (if k == j then none else get m j)
  unfolding get erase
  get-erase [] k j = ground arith
  get-erase ((i, w) ∷ m) k j = ground (arith, ==_iff k j, ==_iff i k, ==_iff i j, get-erase m k j)

  pub get-put_self : (m : Map K V) (k : K) (v : V) → get (put m k v) k ≡ some v
  get-put_self m k v = rw (get-put, ==_refl)

  pub get-erase_self : (m : Map K V) (k : K) → get (erase m k) k ≡ none
  get-erase_self m k = rw (get-erase, ==_refl)

  pub Distinct-put : (m : Map K V) (k : K) (v : V) → Distinct m → Distinct (put m k v)
  unfolding get put
  Distinct-put [] k v d = (refl, tt)
  Distinct-put ((i, w) ∷ m) k v d =
      ground (arith, Distinct-put m k v d.1, get-put m k i v, ==_comm i k)

  pub Distinct-erase : (m : Map K V) (k : K) → Distinct m → Distinct (erase m k)
  unfolding get erase
  Distinct-erase [] k d = tt
  Distinct-erase ((i, w) ∷ m) k d = ground (arith, Distinct-erase m k d.1, get-erase m k i)

  -- Erasing a key that is not there changes nothing.
  pub erase_absent : (m : Map K V) (k : K) → get m k ≡ none → erase m k ≡ m
  unfolding get erase
  erase_absent [] k h = refl
  erase_absent ((i, w) ∷ m) k h = ground (arith, erase_absent m k)

  pub is_empty-put : (m : Map K V) (k : K) (v : V) → is_empty (put m k v) ≡ false
  unfolding put
  is_empty-put [] k v = refl
  is_empty-put ((i, w) ∷ m) k v = ground arith

  pub is_empty_of_get : (m : Map K V) (k : K) (v : V) → get m k ≡ some v → is_empty m ≡ false
  unfolding get
  is_empty_of_get [] k v h = cc
  is_empty_of_get ((i, w) ∷ m) k v h = refl
