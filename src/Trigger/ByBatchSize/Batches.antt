-- ===== src/Trigger/ByBatchSize/Batches.antt =====
-- The batches that a stream of objects is cut into.
use mathlib.Core.List.{append_assoc, append-nil}
use pheromone.Base.{
  ℕ, ◌<◌, ◌≡◌, sym, ap, ◌∙◌, Bytes, List, [], ◌∷◌, ◌++◌, map, arith, length, length-append, All,
  All-append, leb, Bool-cases, inl, inr, leb→le,
}
use pheromone.Common.{BucketKey}
use pheromone.Trigger.Types.{TriggerAction, session_key, all_keys, feed}
use pheromone.Trigger.Types.Stream.{all_keys-append}
use pheromone.Trigger.ByBatchSize.{ByBatchSizeTrigger, size_of_int, action_for_new_object}

abbrev pub IsBatch : ℕ → TriggerAction → Type 0
IsBatch n a = length a.session_keys ≡ n

-- One arrival at a buffer with room.
record Step (target : Bytes) (t : ByBatchSizeTrigger) (k : BucketKey) : Type 0 where
  kept :
      all_keys (action_for_new_object target t k).1 ++ (action_for_new_object target t k).0.buffer
      ≡ t.buffer ++ session_key k ∷ []
  batches : All (IsBatch (size_of_int t.count)) (action_for_new_object target t k).1
  room : length (action_for_new_object target t k).0.buffer < size_of_int t.count
  count : (action_for_new_object target t k).0.count ≡ t.count

arrival :
    (target : Bytes) (t : ByBatchSizeTrigger) (k : BucketKey)
    → length t.buffer < size_of_int t.count
    → Step target t k
unfolding action_for_new_object
arrival target t k h =
    elim (Bool-cases (leb (size_of_int t.count) (length (t.buffer ++ session_key k ∷ [])))) [
      | inl full ↦ record {
        kept = rw (full, action_for_new_object) (append-nil _ ∙ append-nil _);
        batches =
            rw (full, action_for_new_object)
              (omega (arith, leb→le _ _ full, length-append t.buffer (session_key k ∷ [])), tt);
        room = rw (full, action_for_new_object) (omega arith);
        count = rw (full, action_for_new_object);
      }
      | inr more ↦ record {
        kept = rw (more, action_for_new_object);
        batches = rw (more, action_for_new_object) tt;
        room = rw (more, action_for_new_object) (ground arith);
        count = rw (more, action_for_new_object);
      }
    ]

-- However many objects arrive at a trigger with room in its buffer, the keys of the actions, one
-- after another, and then those still in the buffer are the keys that were in the buffer and then
-- those of the objects, in the order of arrival; every action has exactly `count` keys; and the
-- buffer has room again.
pub feed-batches :
    (target : Bytes) (t : ByBatchSizeTrigger) (ks : List BucketKey)
    → length t.buffer < size_of_int t.count
    → (all_keys (feed (action_for_new_object target) t ks).1
          ++ (feed (action_for_new_object target) t ks).0.buffer
        ≡ t.buffer ++ map session_key ks)
      × All (IsBatch (size_of_int t.count)) (feed (action_for_new_object target) t ks).1
      × (length (feed (action_for_new_object target) t ks).0.buffer < size_of_int t.count)
unfolding feed
feed-batches target t [] h = (sym (append-nil _), tt, h)
feed-batches target t (k ∷ ks) h =
    let s = arrival target t k h in
    let t' = (action_for_new_object target t k).0 in
    let now = (action_for_new_object target t k).1 in
    let later = (feed (action_for_new_object target) t' ks).1 in
    let rest = (feed (action_for_new_object target) t' ks).0.buffer in
    let r = feed-batches target t' ks (rw s.count s.room) in
    (
      ap (λ x. x ++ rest) (all_keys-append now later)
          ∙ append_assoc (all_keys now) (all_keys later) rest
          ∙ ap (◌++◌ (all_keys now)) r.0
          ∙ sym (append_assoc (all_keys now) t'.buffer (map session_key ks))
          ∙ ap (λ x. x ++ map session_key ks) s.kept
          ∙ append_assoc t.buffer (session_key k ∷ []) (map session_key ks),
      All-append _ now later s.batches (rw s.count at r.1),
      rw s.count at r.2,
    )
