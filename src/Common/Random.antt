-- ===== src/Common/Random.antt =====
-- common.hpp, gen_random. The C library's rand_r is a parameter: it takes a seed and returns a
-- number and the next seed.
use pheromone.Base.{ℕ, zero, suc, ◌%◌, ◌≡◌, refl, ap, Bytes, bytes, [], ◌∷◌, length, get_elem?}
use pheromone.Base.Maps.{get_or}

abbrev pub alpha_num : Bytes
alpha_num = bytes "0123456789ABCDEFGHIJKLMNOPQRSTUVWXYZabcdefghijklmnopqrstuvwxyz"

module _ (rand_r : ℕ → ℕ × ℕ) where
  -- The text and the next seed.
  unfoldable pub gen_random : ℕ → ℕ → Bytes × ℕ
  gen_random seed zero = ([], seed)
  gen_random seed (suc len) =
      let (r, seed') = rand_r seed in
      let (text, seed'') = gen_random seed' len in
      (get_or (get_elem? alpha_num (r % 62)) 0 ∷ text, seed'')

  -- A random text has the length that was asked for.
  pub length-gen_random : (seed len : ℕ) → length (gen_random seed len).0 ≡ len
  unfolding gen_random
  length-gen_random seed zero = refl
  length-gen_random seed (suc len) = ap suc (length-gen_random (rand_r seed).1 len)
