-- ===== src/Coordinator/Calls/Split/Parts.antt =====
-- The calls that a batch is cut into have all of its requests, in order.
use mathlib.Core.List.{append_assoc}
use pheromone.Base.{
  ℕ, zero, suc, ◌+◌, ◌<◌, ◌≡◌, refl, sym, ap, ◌∙◌, Address, List, [], ◌∷◌, ◌++◌, some, arith,
  length, length-append, ltb, nat_beq, nat_beq_iff, if◌then◌else◌, Bool-cases, inl, inr,
}
use pheromone.Coordinator.Types.{FunctionRequest}
use pheromone.Coordinator.Calls.Split.{split_from, split_calls, cons_part}
use pheromone.Coordinator.Calls.Share.Loads.{load_sum, NodesInTurn}

abbrev pub Part : Type 0
Part = Address × List FunctionRequest

abbrev pub joined : List Part → List FunctionRequest
joined [] = []
joined ((node, requests) ∷ parts) = requests ++ joined parts

abbrev pub sizes : List Part → List (Address × ℕ)
sizes [] = []
sizes ((node, requests) ∷ parts) = (node, length requests) ∷ sizes parts

-- The nodes with a load.
abbrev pub busy : List (Address × ℕ) → List (Address × ℕ)
busy [] = []
busy ((node, load) ∷ nodes) = if ltb 0 load then (node, load) ∷ busy nodes else busy nodes

busy_none : (nodes : List (Address × ℕ)) → load_sum nodes ≡ 0 → busy nodes ≡ []
busy_none [] h = refl
busy_none ((node, zero) ∷ nodes) h = busy_none nodes (omega arith)
busy_none ((node, suc n) ∷ nodes) h = absurd (omega arith)

abbrev Parts : List FunctionRequest → List FunctionRequest → List (Address × ℕ) → Type 0
Parts part requests nodes =
    (parts : List Part) × (split_from part requests nodes ≡ some parts)
    × (joined parts ≡ part ++ requests)
    × (sizes parts ≡ busy nodes)

-- A new call is begun at the next node with a load, if a request is left.
begin :
    (requests : List FunctionRequest) (nodes : List (Address × ℕ))
    → NodesInTurn nodes
    → length requests ≡ load_sum nodes
    → ((node : Address) (load : ℕ) (rest : List (Address × ℕ))
        → 0 < load
        → length requests ≡ load + load_sum rest
        → NodesInTurn rest
        → Parts [] requests ((node, load) ∷ rest))
    → Parts [] requests nodes
unfolding split_from
begin [] nodes t h f = ([], refl, refl, sym (busy_none nodes (sym h)))
begin (r ∷ requests) [] t h f = absurd (omega arith)
begin (r ∷ requests) ((node, load) ∷ rest) (inl (p, t)) h f = f node load rest p h t
begin (r ∷ requests) ((node, load) ∷ rest) (inr e) h f = absurd (omega arith)

busy_here :
    (node : Address) (load : ℕ) (nodes : List (Address × ℕ))
    → 0 < load
    → busy ((node, load) ∷ nodes) ≡ (node, load) ∷ busy nodes
busy_here node load nodes h = ground arith

split_from_total :
    (part requests : List FunctionRequest) (node : Address) (load : ℕ) (nodes : List (Address × ℕ))
    → length part < load
    → length part + length requests ≡ load + load_sum nodes
    → NodesInTurn nodes
    → Parts part requests ((node, load) ∷ nodes)
unfolding split_from
split_from_total part [] node load nodes l h t = absurd (omega arith)
split_from_total part (r ∷ requests) node load nodes l h t =
    let part' = part ++ r ∷ [] in
    let grown : length part' ≡ length part + 1 = length-append part (r ∷ []) in
    elim (Bool-cases (nat_beq (length part') load)) [
      | inl full ↦
          let e : length part' ≡ load = (nat_beq_iff (length part') load).0 full in
          let (parts, done, all, sz) =
            begin requests nodes t (omega arith) (λ node' load' rest p q t'.
              split_from_total [] requests node' load' rest p (omega arith) t') in
          (
            (node, part') ∷ parts,
            rw (full, split_from) (rw (done, cons_part) refl),
            ap (◌++◌ part') all ∙ append_assoc part (r ∷ []) requests,
            rw (busy_here node load nodes (omega arith)) (cc),
          )
      | inr more ↦
          let below : length part' < load = ground arith in
          let (parts, done, all, sz) =
            split_from_total part' requests node load nodes below (omega arith) t in
          (parts, rw (more, split_from) done, all ∙ append_assoc part (r ∷ []) requests, sz)
    ]

-- Where the loads come in turn and are as many as the requests, the split is defined; the calls
-- have all requests in order, and those of each node with a load are as many as its load.
pub split_calls_total :
    (requests : List FunctionRequest) (nodes : List (Address × ℕ))
    → NodesInTurn nodes
    → length requests ≡ load_sum nodes
    → (parts : List Part) × (split_calls requests nodes ≡ some parts)
      × (joined parts ≡ requests)
      × (sizes parts ≡ busy nodes)
unfolding split_calls
split_calls_total requests nodes t h =
    begin requests nodes t h
      (λ node load rest p q t'. split_from_total [] requests node load rest p (omega arith) t')
