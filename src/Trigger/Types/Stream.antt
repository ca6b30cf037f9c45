-- ===== src/Trigger/Types/Stream.antt =====
-- Laws of a stream of objects.
use mathlib.Core.List.{append_assoc}
use pheromone.Base.{List, [], ◌∷◌, ◌++◌, ◌≡◌, refl, sym}
use pheromone.Common.{BucketKey}
use pheromone.Trigger.Types.{TriggerAction, all_keys, feed}

pub all_keys-append :
    (xs ys : List TriggerAction) → all_keys (xs ++ ys) ≡ all_keys xs ++ all_keys ys
all_keys-append [] ys = refl
all_keys-append (x ∷ xs) ys = rw (all_keys-append xs ys) (sym (append_assoc x.session_keys _ _))

module _ {S : Type 0} (arrive : S → BucketKey → S × List TriggerAction) where
  pub feed-append :
      (s : S) (xs ys : List BucketKey)
      → feed arrive s (xs ++ ys) ≡ (
        (feed arrive (feed arrive s xs).0 ys).0,
        (feed arrive s xs).1 ++ (feed arrive (feed arrive s xs).0 ys).1,
      )
  unfolding feed
  feed-append s [] ys = refl
  feed-append s (x ∷ xs) ys = rw (feed-append (arrive s x).0 xs ys) (
      cc (
        append_assoc (arrive s x).1 (feed arrive (arrive s x).0 xs).1
          (feed arrive (feed arrive (arrive s x).0 xs).0 ys).1))
