-- ===== src/Trigger/Redundant/Windows.antt =====
-- The windows that a stream of objects falls into.
use mathlib.Core.List.{append_assoc}
use pheromone.Base.{
  ℕ, suc, ◌+◌, ◌≤◌, ◌<◌, ◌≡◌, refl, Bytes, Session, Key, List, [], ◌∷◌, ◌++◌, map, arith, length,
  All, ltb, if◌then◌else◌,
}
use pheromone.Common.{BucketKey}
use pheromone.Trigger.Types.{TriggerAction, session_key, feed}
use pheromone.Trigger.Types.Stream.{feed-append}
use pheromone.Trigger.Redundant.{RedundantTrigger, init, action_for_new_object}

-- The number of objects from one round to the next.
abbrev pub period : ℕ → ℕ → ℕ
period k n = if ltb k n then n else suc k

abbrev pub first_keys : Bytes → List BucketKey → TriggerAction
first_keys target ks = record { function = target; session_keys = map session_key ks }

module _ (target : Bytes) (k n : ℕ) (fits : period k n < 4294967296) where
  abbrev at : ℕ → List (Session × Key) → RedundantTrigger
  at c b = record { k = k; n = n; count = c; buffer = b }

  abbrev arrive : RedundantTrigger → BucketKey → RedundantTrigger × List TriggerAction
  arrive = action_for_new_object target

  collect_one :
      (c : ℕ) (b : List (Session × Key)) (x : BucketKey)
      → suc c < k
      → arrive (at c b) x ≡ (at (suc c) (b ++ session_key x ∷ []), [])
  unfolding action_for_new_object
  collect_one c b x h = ground arith

  fire_one :
      (c : ℕ) (b : List (Session × Key)) (x : BucketKey)
      → suc c ≡ k
      → arrive (at c b) x
        ≡ (at k [], record { function = target; session_keys = b ++ session_key x ∷ [] } ∷ [])
  unfolding action_for_new_object
  fire_one c b x h = ground arith

  skip_one :
      (c : ℕ) (x : BucketKey)
      → k ≤ c
      → suc c < period k n
      → arrive (at c []) x ≡ (at (suc c) [], [])
  unfolding action_for_new_object
  skip_one c x h l = ground arith

  refresh_one :
      (c : ℕ) (x : BucketKey) → k ≤ c → suc c ≡ period k n → arrive (at c []) x ≡ (at 0 [], [])
  unfolding action_for_new_object
  refresh_one c x h l = ground arith

  -- The objects up to the k-th are collected, and the k-th fires.
  collect :
      (c : ℕ) (b : List (Session × Key)) (x : BucketKey) (xs : List BucketKey)
      → suc c + length xs ≡ k
      → feed arrive (at c b) (x ∷ xs)
        ≡ (at k [], record { function = target; session_keys = b ++ map session_key (x ∷ xs) } ∷ [])
  unfolding feed
  collect c b x [] h = rw (fire_one c b x (omega arith)) refl
  collect c b x (y ∷ ys) h = rw (
    collect_one c b x (omega arith),
    collect (suc c) (b ++ session_key x ∷ []) y ys (omega arith),
    append_assoc b (session_key x ∷ []) (map session_key (y ∷ ys)),
  )

  -- The objects behind it are dropped, and the last one starts the next round.
  drain :
      (c : ℕ) (x : BucketKey) (xs : List BucketKey)
      → k ≤ c
      → suc c + length xs ≡ period k n
      → feed arrive (at c []) (x ∷ xs) ≡ (at 0 [], [])
  unfolding feed
  drain c x [] h l = rw (refresh_one c x h (omega arith))
  drain c x (y ∷ ys) h l =
      rw (skip_one c x h (omega arith), drain (suc c) y ys (omega arith) (omega arith))

  -- One round: `k` objects and those that are dropped.
  round :
      (ks ds : List BucketKey)
      → 0 < k
      → length ks ≡ k
      → length ks + length ds ≡ period k n
      → feed arrive (at 0 []) (ks ++ ds) ≡ (at 0 [], first_keys target ks ∷ [])
  round [] ds p h l = absurd (omega arith)
  round (x ∷ ks) [] p h l = absurd (ground arith)
  round (x ∷ ks) (y ∷ ds) p h l = rw (
    feed-append arrive (at 0 []) (x ∷ ks) (y ∷ ds),
    collect 0 [] x ks (omega arith),
    drain k y ds (omega arith) (omega arith),
  )

  abbrev IsRound : List BucketKey × List BucketKey → Type 0
  IsRound (ks, ds) = (length ks ≡ k) × (length ks + length ds ≡ period k n)

  abbrev pub all_objects : List (List BucketKey × List BucketKey) → List BucketKey
  all_objects [] = []
  all_objects ((ks, ds) ∷ rs) = (ks ++ ds) ++ all_objects rs

  -- A stream of whole rounds, each of `k` objects and then further ones up to the period, leads to
  -- one action for each round, over the keys of its first `k` objects in order, and leaves the
  -- trigger as it was made. The period is `n`, but `k + 1` where `n` is no more than `k`; it fits
  -- an unsigned number, and `k` is not 0.
  pub feed-rounds :
      (rs : List (List BucketKey × List BucketKey))
      → 0 < k
      → All IsRound rs
      → feed (action_for_new_object target) (init k n) (all_objects rs)
        ≡ (init k n, map (λ r. first_keys target r.0) rs)
  feed-rounds [] p h = unfold feed in refl
  feed-rounds ((ks, ds) ∷ rs) p h = rw (
    feed-append arrive (at 0 []) (ks ++ ds) (all_objects rs),
    round ks ds p h.0.0 h.0.1,
    feed-rounds rs p h.1,
  )
