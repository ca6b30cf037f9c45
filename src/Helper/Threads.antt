-- ===== src/Helper/Threads.antt =====
-- comm_helper.hpp: the IO threads take turns.
use native.Mathlib.Nat.{mod_self}
use pheromone.Base.{
  ℕ, ◌+◌, ◌%◌, ◌≤◌, ◌<◌, ◌≡◌, Bool, true, false, nat_beq, arith, Bool-cases, inl, inr, ltb, ltb→lt,
  refl,
}
use pheromone.Helper.Types.{CommHelper, get_io_thread_id}

no_remainder : (a n : ℕ) → a ≡ n → a % n ≡ 0
no_remainder a n e = rw e (mod_self n)

lt_of_remainder : (a n : ℕ) → a ≤ n → nat_beq (a % n) 0 ≡ false → a < n
lt_of_remainder a n le h = elim (Bool-cases (ltb a n)) [
  | inl lt ↦ ltb→lt a n lt
  | inr ge ↦ absurd (ground (arith, h, no_remainder a n (ground (arith, ge, le))))
]

-- With at least two IO threads, and one of them the last that was used, the next one is one of them
-- and is noted, and it is not the main thread 0 if that is excluded.
pub get_io_thread_id-lt :
    (exclude : Bool) (h : CommHelper)
    → 2 ≤ h.io_thread_count
    → h.io_thread_count < 4294967296
    → h.io_thread_id < h.io_thread_count
    → ((get_io_thread_id exclude h).0 < h.io_thread_count)
      × ((get_io_thread_id exclude h).1.io_thread_id ≡ (get_io_thread_id exclude h).0)
      × (exclude ≡ true → 1 ≤ (get_io_thread_id exclude h).0)
unfolding get_io_thread_id
get_io_thread_id-lt exclude h two small last =
    let next : (h.io_thread_id + 1) % 4294967296 ≡ h.io_thread_id + 1 =
      omega (arith, small, last) in
    elim (Bool-cases (nat_beq ((h.io_thread_id + 1) % h.io_thread_count) 0)) [
      | inl e ↦ rw (next, e) (ground arith, refl, λ x. ground (arith, x))
      | inr e ↦
          rw (next, e)
            (
              lt_of_remainder (h.io_thread_id + 1) h.io_thread_count (omega (arith, last)) e,
              refl,
              λ x. omega arith,
            )
    ]
