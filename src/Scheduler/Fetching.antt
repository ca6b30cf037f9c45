-- ===== src/Scheduler/Fetching.antt =====
-- scheduler_server.cpp, run(): the look up of the arguments of a call against what it is for.
use mathlib.Core.List.{append_assoc, append-nil}
use pheromone.Base.{
  ℕ, ◌≡◌, refl, sym, ap, Bytes, Session, Bool, true, false, ◌&&◌, ◌||◌, not, List, [], ◌∷◌, ◌++◌,
  map, bytes_eq, ◌==◌, ==_iff, nat_eq, if◌then◌else◌, arith, Bool-cases, inl, inr,
}
use pheromone.Base.Maps.{Map, get, put, has, get_or, get-put}
use pheromone.Base.Sets
use pheromone.Base.Sets.{contains, insert_all, contains-insert}
use pheromone.Scheduler.Types.{Scheduler, Effect, send_data_req, InflightFuncArgs}
use pheromone.Scheduler.Responses.{fetch_arg, fetch_args, no_args}

abbrev pub those_keys : (Bytes → Bool) → List Bytes → List Bytes
those_keys p [] = []
those_keys p (key ∷ keys) = let rest = those_keys p keys in if p key then key ∷ rest else rest

-- The object of a key is not here; and no call waits for it either.
abbrev pub is_missing : Scheduler → Bytes → Bool
is_missing s key = not (has s.key_len_map key)

abbrev pub is_new : Scheduler → Bytes → Bool
is_new s key = is_missing s key && not (has s.key_call_id_map key)

has-put :
    {V : Type 0} (m : Map Bytes V) (k j : Bytes) (v : V) → has (put m k v) j ≡ (k == j || has m j)
has-put m k j v = ground (arith, get-put m k j v)

map-insert :
    (xs : List Bytes) (k : Bytes)
    → map send_data_req (Sets.insert xs k)
      ≡ map send_data_req xs ++ (if contains xs k then [] else send_data_req k ∷ [])
unfolding contains Sets.insert
map-insert [] k = refl
map-insert (x ∷ xs) k = ground (arith, map-insert xs k, append-nil (map send_data_req xs))

-- What the look up has come to: `requested` are the keys that it has asked for.
abbrev HasAsked :
    Scheduler
    → List Bytes
    → List Bytes
    → List Bytes
    → InflightFuncArgs × Scheduler × List Effect
    → Type 0
HasAsked s key_args inflight requested (call, t, effects) =
    (t.key_len_map ≡ s.key_len_map)
    × ((key : Bytes)
        → has t.key_call_id_map key ≡ (has s.key_call_id_map key || contains requested key))
    × (call.key_args ≡ key_args)
    × (call.inflight_args ≡ inflight)
    × (effects ≡ map send_data_req requested)

abbrev insert_if : Bool → List Bytes → Bytes → List Bytes
insert_if b xs key = if b then Sets.insert xs key else xs

fetch_arg-HasAsked :
    (cid : ℕ) (key : Bytes) (s : Scheduler) (key_args inflight requested : List Bytes)
    (r : InflightFuncArgs × Scheduler × List Effect)
    → HasAsked s key_args inflight requested r
    → HasAsked s
        (key_args ++ key ∷ [])
        (insert_if (is_missing s key) inflight key)
        (insert_if (is_new s key) requested key)
        (fetch_arg cid key r)
unfolding fetch_arg
fetch_arg-HasAsked cid key s key_args inflight requested (call, t, effects)
      (lens, ids, args, waits, sent) =
    elim (Bool-cases (has s.key_len_map key)) [
      | inl here ↦ rw (lens, here) (refl, ids, ap (λ xs. xs ++ key ∷ []) args, waits, sent)
      | inr missing ↦
          rw (lens, missing)
            (
              refl,
              λ k. ids_after k,
              ap (λ xs. xs ++ key ∷ []) args,
              ap (λ xs. Sets.insert xs key) waits,
              sent_after,
            )
    ]
  where
    ids_after :
        (k : Bytes)
        → has
            (put t.key_call_id_map key (Sets.insert (get_or (get t.key_call_id_map key) []) cid))
            k
          ≡ (has s.key_call_id_map k
              || contains (insert_if (not (has s.key_call_id_map key)) requested key) k)
    ids_after k = ground (
      arith,
      has-put t.key_call_id_map key k (Sets.insert (get_or (get t.key_call_id_map key) []) cid),
      ids k,
      contains-insert requested key k,
      ==_iff key k,
    )

    sent_after :
        effects ++ (if has t.key_call_id_map key then [] else send_data_req key ∷ [])
        ≡ map send_data_req (insert_if (not (has s.key_call_id_map key)) requested key)
    sent_after =
        ground
          (arith, ids key, sent, map-insert requested key, append-nil (map send_data_req requested))

insert_all-insert_if :
    (b : Bool) (xs rest : List Bytes) (key : Bytes)
    → insert_all (insert_if b xs key) rest ≡ insert_all xs (if b then key ∷ rest else rest)
unfolding insert_all
insert_all-insert_if true xs rest key = refl
insert_all-insert_if false xs rest key = refl

fetch_args-HasAsked :
    (cid : ℕ) (keys : List Bytes) (s : Scheduler) (key_args inflight requested : List Bytes)
    (r : InflightFuncArgs × Scheduler × List Effect)
    → HasAsked s key_args inflight requested r
    → HasAsked s
        (key_args ++ keys)
        (insert_all inflight (those_keys (is_missing s) keys))
        (insert_all requested (those_keys (is_new s) keys))
        (fetch_args cid keys r)
unfolding fetch_args insert_all
fetch_args-HasAsked cid [] s key_args inflight requested r h = rw (append-nil key_args) h
fetch_args-HasAsked cid (key ∷ keys) s key_args inflight requested r h =
    rw
      (
        sym (append_assoc key_args (key ∷ []) keys),
        sym (insert_all-insert_if (is_missing s key) inflight (those_keys (is_missing s) keys) key),
        sym (insert_all-insert_if (is_new s key) requested (those_keys (is_new s) keys) key),
      )
      (fetch_args-HasAsked cid keys s (key_args ++ key ∷ [])
        (insert_if (is_missing s key) inflight key) (insert_if (is_new s key) requested key)
        (fetch_arg cid key r) (fetch_arg-HasAsked cid key s key_args inflight requested r h))

-- The look up of a call's arguments keeps all its keys in their order, waits for those whose objects
-- are not here, and asks once, in their order, for each of those that no call waits for already.
pub fetch_args_lem :
    (cid : ℕ) (keys : List Bytes) (func : Bytes) (session : Session) (arg_flag : ℕ) (s : Scheduler)
    → let (call, _, effects) = fetch_args cid keys (no_args func session arg_flag, s, []) in
      (call.key_args ≡ keys)
      × (call.inflight_args ≡ insert_all [] (those_keys (is_missing s) keys))
      × (effects ≡ map send_data_req (insert_all [] (those_keys (is_new s) keys)))
unfolding contains
fetch_args_lem cid keys func session arg_flag s =
    let (_, _, args, waits, sent) =
      fetch_args-HasAsked cid keys s [] [] [] (no_args func session arg_flag, s, [])
        (refl, (λ key. ground (arith)), refl, refl, refl) in
    (args, waits, sent)
