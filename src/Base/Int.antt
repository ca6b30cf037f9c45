-- ===== src/Base/Int.antt =====
-- A C++ int, as an integer over the native numbers.
use Prim.Native.Nat.{ℕ, zero, suc, ◌-◌}
use pheromone.Base.Tests.{ltb, if◌then◌else◌}

-- `negsuc n` is -(n + 1).
pub data ℤ : Type 0 where
  pos : ℕ → ℤ
  negsuc : ℕ → ℤ

abbrev pub pos_part : ℤ → ℕ
pos_part (pos n) = n
pos_part (negsuc n) = 0

-- The int that a uint32 field of a message is converted to.
abbrev pub int_of_u32 : ℕ → ℤ
int_of_u32 u = if ltb u 2147483648 then pos u else negsuc (4294967295 - u)

-- n-- (no program reaches the least int, since it counts down from a positive number only).
abbrev pub decrement : ℤ → ℤ
decrement (pos zero) = negsuc 0
decrement (pos (suc n)) = pos n
decrement (negsuc n) = negsuc (suc n)
