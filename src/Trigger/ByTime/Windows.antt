-- ===== src/Trigger/ByTime/Windows.antt =====
-- The windows that a stream of objects is cut into.
use mathlib.Core.List.{append_assoc, append-nil}
use pheromone.Base.{
  refl, ◌+◌, ◌/◌, le→leb, ℕ, ◌≡◌, sym, ap, ◌∙◌, Bytes, List, [], ◌∷◌, ◌++◌, map, arith, leb,
  Bool-cases, inl, inr, ◌-◌, ◌*◌, ◌≤◌,
}
use pheromone.Common.{BucketKey}
use pheromone.Trigger.Types.{TriggerAction, session_key, all_keys}
use pheromone.Trigger.Types.Stream.{all_keys-append}
use pheromone.Trigger.ByTime.{ByTimeTrigger, window_over, action_for_new_object}

-- Objects that arrive at the times beside them.
unfoldable pub feed_at :
    Bytes → ByTimeTrigger → List (ℕ × BucketKey) → ByTimeTrigger × List TriggerAction
feed_at target t [] = (t, [])
feed_at target t ((now, k) ∷ ks) =
    let (t', actions) = action_for_new_object now target t k in
    let (t'', later) = feed_at target t' ks in (t'', actions ++ later)

one-kept :
    (now : ℕ) (target : Bytes) (t : ByTimeTrigger) (k : BucketKey)
    → all_keys (action_for_new_object now target t k).1
        ++ (action_for_new_object now target t k).0.buffer
      ≡ t.buffer ++ session_key k ∷ []
unfolding action_for_new_object
one-kept now target t k = elim (Bool-cases (window_over now t.last_trigger_stamp t.time_window)) [
  | inl e ↦ rw (e, action_for_new_object) (append-nil _ ∙ append-nil _)
  | inr e ↦ rw (e, action_for_new_object)
]

-- Whatever the clock says as the objects arrive, no object is lost, doubled or moved: the keys of
-- all actions in turn, and then the buffer, are the old buffer and then the objects' keys.
pub feed_at-kept :
    (target : Bytes) (t : ByTimeTrigger) (ks : List (ℕ × BucketKey))
    → all_keys (feed_at target t ks).1 ++ (feed_at target t ks).0.buffer
      ≡ t.buffer ++ map (λ r. session_key r.1) ks
unfolding feed_at
feed_at-kept target t [] = sym (append-nil _)
feed_at-kept target t ((now, k) ∷ ks) =
    let t' = (action_for_new_object now target t k).0 in
    let acts = (action_for_new_object now target t k).1 in
    let later = (feed_at target t' ks).1 in
    let rest = (feed_at target t' ks).0.buffer in
    let keys = map (λ (r : ℕ × BucketKey). session_key r.1) ks in
    ap (λ x. x ++ rest) (all_keys-append acts later)
    ∙ append_assoc (all_keys acts) (all_keys later) rest
    ∙ ap (◌++◌ (all_keys acts)) (feed_at-kept target t' ks)
    ∙ sym (append_assoc (all_keys acts) t'.buffer keys)
    ∙ ap (λ x. x ++ keys) (one-kept now target t k)
    ∙ append_assoc t.buffer (session_key k ∷ []) keys

-- The times of the objects do not decrease from `first` on, and end with `last`.
abbrev pub Goes : ℕ → ℕ → List (ℕ × BucketKey) → Type 0
Goes first last [] = first ≤ last
Goes first last ((now, k) ∷ ks) = (first ≤ now) × Goes now last ks

-- The nanoseconds of that many windows.
abbrev pub windows : ByTimeTrigger → List TriggerAction → ℕ
windows t [] = 0
windows t (a ∷ actions) = t.time_window * 1000000 + windows t actions

windows-append :
    (t : ByTimeTrigger) (xs ys : List TriggerAction)
    → windows t (xs ++ ys) ≡ windows t xs + windows t ys
windows-append t [] ys = omega arith
windows-append t (a ∷ xs) ys = omega (arith, windows-append t xs ys)

windows-same :
    (t t' : ByTimeTrigger) (actions : List TriggerAction)
    → t'.time_window ≡ t.time_window
    → windows t' actions ≡ windows t actions
windows-same t t' [] same = refl
windows-same t t' (a ∷ actions) same = omega (arith, same, windows-same t t' actions same)

abbrev IsSpaced : ℕ → ByTimeTrigger → ByTimeTrigger × List TriggerAction → Type 0
IsSpaced last t (t', actions) =
    (t'.time_window ≡ t.time_window)
    × (windows t actions + t.last_trigger_stamp ≤ t'.last_trigger_stamp)
    × (t'.last_trigger_stamp ≤ last)

action-IsSpaced :
    (now : ℕ) (target : Bytes) (t : ByTimeTrigger) (k : BucketKey)
    → t.last_trigger_stamp ≤ now
    → IsSpaced now t (action_for_new_object now target t k)
unfolding action_for_new_object window_over
action-IsSpaced now target t k h =
    elim (Bool-cases (leb t.time_window ((now - t.last_trigger_stamp) / 1000000))) [
      | inl e ↦ rw (le→leb t.last_trigger_stamp now h, e) (refl, ground (arith, e, h), omega arith)
      | inr e ↦ rw (le→leb t.last_trigger_stamp now h, e) (refl, omega arith, h)
    ]

Goes-from :
    (first now last : ℕ) (ks : List (ℕ × BucketKey))
    → first ≤ now
    → Goes now last ks
    → Goes first last ks
Goes-from first now last [] h goes = omega (arith, h, goes)
Goes-from first now last ((next, k) ∷ ks) h goes = (omega (arith, h, goes.0), goes.1)

-- Where the clock is not set back, from the trigger's last time on, the windows of all actions that a
-- stream of objects leads to fit, one behind the other, between that time and the time of the last
-- action, which is not behind the end of the stream: the function is triggered no more often than
-- windows have passed.
pub feed_at-spaced :
    (target : Bytes) (t : ByTimeTrigger) (ks : List (ℕ × BucketKey)) (last : ℕ)
    → Goes t.last_trigger_stamp last ks
    → (windows t (feed_at target t ks).1 + t.last_trigger_stamp
        ≤ (feed_at target t ks).0.last_trigger_stamp)
      × ((feed_at target t ks).0.last_trigger_stamp ≤ last)
unfolding feed_at
feed_at-spaced target t [] last goes = (omega arith, goes)
feed_at-spaced target t ((now, k) ∷ ks) last goes =
    let r = action_for_new_object now target t k in
    let (same, spent, behind) = action-IsSpaced now target t k goes.0 in
    let (more, ends) = feed_at-spaced target r.0 ks last (Goes-from _ now last ks behind goes.1) in
    (
      omega (
        arith,
        spent,
        more,
        windows-append t r.1 (feed_at target r.0 ks).1,
        windows-same t r.0 (feed_at target r.0 ks).1 same,
      ),
      ends,
    )
