-- ===== src/Trigger/BySet/Rerun.antt =====
-- The calls that are kept for a rerun, and what becomes of them.
use pheromone.Base.{
  ◌<◌, ◌≡◌, refl, Bytes, Key, Session, true, false, List, [], ◌∷◌, ◌++◌, some, arith, length, ap,
  All, bytes_eq, ◌==◌, ==_iff, length-append, Bool-cases, inl, inr, Option-cases,
}
use mathlib.Core.List.{Memᴰ}
use pheromone.Base.Sets.{contains}
use pheromone.Base.Maps.{get, erase, get-put_self, get-erase, is_empty-put, is_empty_of_get}
use pheromone.Trigger.Types.{TriggerFunctionMetadata, StatusCache}
use pheromone.Trigger.BySet.{BySetTrigger, notify_source_func, action_for_rerun, rerun_calls, clear}

longer_ne : (k s : Bytes) → 0 < length k → (s == (k ++ s)) ≡ false
longer_ne k s h = elim (Bool-cases (s == (k ++ s))) [
  | inl e ↦ absurd (omega (arith, ap length ((==_iff s (k ++ s)).0 e), length-append k s))
  | inr e ↦ e
]

rerun_calls-mem :
    (cache : StatusCache) (session : Session) (keys : List Key) (key : Key)
    (meta : TriggerFunctionMetadata)
    → contains keys key ≡ true
    → get cache (key ++ session) ≡ some meta
    → Memᴰ meta (rerun_calls cache session keys)
unfolding rerun_calls contains
rerun_calls-mem cache session [] key meta h g = cc
rerun_calls-mem cache session (k ∷ keys) key meta h g = elim (Bool-cases (k == key)) [
  | inl here ↦
      let e : get cache (k ++ session) ≡ some meta = rw ((==_iff k key).0 here) g in
      rw (e, rerun_calls) (Memᴰ.head refl)
  | inr there ↦
      let rest = rerun_calls-mem cache session keys key meta (rw there at h) g in
      elim (Option-cases (get cache (k ++ session))) [
        | inl e ↦ rw (e, rerun_calls) rest
        | inr (m, e) ↦ rw (e, rerun_calls) (Memᴰ.tail rest)
      ]
]

-- The entry of a key and a session is another one than the entry that `clear` erases.
rerun_calls-clear :
    (cache : StatusCache) (session : Session) (keys : List Key)
    → All (λ key. 0 < length key) keys
    → rerun_calls (erase cache session) session keys ≡ rerun_calls cache session keys
unfolding rerun_calls
rerun_calls-clear cache session [] h = refl
rerun_calls-clear cache session (key ∷ keys) h =
    rw (get-erase cache session (key ++ session), longer_ne key session h.0, rerun_calls)
      (ground (arith, rerun_calls-clear cache session keys h.1))

-- A call of a source function that was noted for a session is among the session's reruns, if the
-- function's key is in the key set.
pub notify_source_func-rerun :
    (t : BySetTrigger) (session : Session) (meta : TriggerFunctionMetadata) (key : Key)
    → get t.func_key_map meta.func_name ≡ some key
    → contains t.key_set key ≡ true
    → Memᴰ meta (action_for_rerun (notify_source_func t session meta) session)
unfolding notify_source_func action_for_rerun
notify_source_func-rerun t session meta key known in_set =
    let full = is_empty_of_get t.func_key_map meta.func_name key known in
    rw (full, known, notify_source_func)
      (rw (is_empty-put t.func_key_map meta.func_name key, action_for_rerun)
        (rerun_calls-mem _ session t.key_set key meta in_set
          (get-put_self t.session_status_cache (key ++ session) meta)))

-- Clearing a session leaves the reruns of the session as they were, if no key is empty: `clear`
-- erases the entry named by the session, while the entries are named by a key and the session.
pub action_for_rerun-clear :
    (t : BySetTrigger) (session : Session)
    → All (λ key. 0 < length key) t.key_set
    → action_for_rerun (clear t session) session ≡ action_for_rerun t session
unfolding action_for_rerun clear
action_for_rerun-clear t session h =
    ground (arith, rerun_calls-clear t.session_status_cache session t.key_set h)
