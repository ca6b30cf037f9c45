-- ===== src/Common/Split.antt =====
-- common.hpp, split(): std::getline over a string stream. And the inverse that notify_handler.cpp
-- uses, std::copy into an ostream_iterator, which writes the delimiter behind every part.
use pheromone.Base.{
  ℕ, ◌≡◌, refl, ap, Bytes, false, List, [], ◌∷◌, ◌++◌, ◌∙◌, nat_eq, nat_beq, if◌then◌else◌, All,
  arith,
}
use mathlib.Core.List.{append_assoc, append-nil}
use pheromone.Base.Sets.{contains}

-- One getline after another: `item` holds what the current call has read. At the end of the stream
-- a call that has read nothing fails, and the loop ends.
unfoldable pub split_from : ℕ → Bytes → Bytes → List Bytes
split_from delim [] [] = []
split_from delim (c ∷ cs) [] = (c ∷ cs) ∷ []
split_from delim item (x ∷ s) =
    let stop = item ∷ split_from delim [] s in
    let more = split_from delim (item ++ x ∷ []) s in if nat_beq x delim then stop else more

unfoldable pub split : Bytes → ℕ → List Bytes
unfolding split_from
split s delim = split_from delim [] s

unfoldable pub implode : ℕ → List Bytes → Bytes
implode delim [] = []
implode delim (v ∷ vs) = v ++ (delim ∷ implode delim vs)

module _ (delim : ℕ) where
  pub split_from-part :
      (item v rest : Bytes)
      → contains v delim ≡ false
      → split_from delim item (v ++ (delim ∷ rest)) ≡ (item ++ v) ∷ split_from delim [] rest
  unfolding split_from contains
  split_from-part [] [] rest h = ground arith
  split_from-part (c ∷ cs) [] rest h = ground (arith, append-nil (c ∷ cs))
  split_from-part [] (x ∷ v) rest h = ground (arith, split_from-part (x ∷ []) v rest)
  split_from-part (c ∷ cs) (x ∷ v) rest h =
      ground (arith, split_from-part ((c ∷ cs) ++ x ∷ []) v rest, append_assoc (c ∷ cs) (x ∷ []) v)

  -- Splitting what was imploded gives the parts back, empty ones too, if no part has the delimiter.
  pub split-implode :
      (vs : List Bytes)
      → All (λ v. contains v delim ≡ false) vs
      → split (implode delim vs) delim ≡ vs
  unfolding split implode
  split-implode [] h = refl
  split-implode (v ∷ vs) h =
      split_from-part [] v (implode delim vs) h.0
      ∙ ap (◌∷◌ v) (unfold split in split-implode vs h.1)
