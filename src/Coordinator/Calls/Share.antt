-- ===== src/Coordinator/Calls/Share.antt =====
-- func_call_handler.cpp: the requests of a batch are dealt to the available nodes in turn.
pub mod Seek
pub mod Deal
pub mod Loads
use pheromone.Base.{
  ℕ, zero, suc, ◌+◌, ◌-◌, ◌%◌, Address, Bool, true, false, List, [], ◌∷◌, map, Option, none, some,
  ltb, length, get_elem?,
}
use pheromone.Base.Maps.{get_or}

-- A vector entry is written in place.
abbrev pub update : List ℕ → ℕ → (ℕ → ℕ) → List ℕ
update [] i f = []
update (x ∷ xs) zero f = f x ∷ xs
update (x ∷ xs) (suc i) f = x ∷ update xs i f

abbrev pub entry : List ℕ → ℕ → ℕ
entry xs i = get_or (get_elem? xs i) 0

-- while (avail_nodes[node_idx].second <= 0) node_idx = (node_idx + 1) % avail_nodes.size();
-- at most one round of `fuel` steps, `none` if none of them meets a node with a slot.
unfoldable pub seek : ℕ → List ℕ → ℕ → Option ℕ
seek zero slots node_idx = none
seek (suc fuel) slots node_idx = elim (ltb 0 (entry slots node_idx)) [
  | true ↦ some node_idx
  | false ↦ seek fuel slots ((node_idx + 1) % length slots)
]

-- The loop over the requests: each takes a slot of the next node that has one.
unfoldable pub deal : ℕ → List ℕ → List ℕ → ℕ → Option (List ℕ)
unfolding seek
deal zero slots loads node_idx = some loads
deal (suc requests) slots loads node_idx = elim (seek (length slots) slots node_idx) [
  | none ↦ none
  | some i ↦
      deal requests (update slots i (λ n. n - 1)) (update loads i (λ n. n + 1))
        ((i + 1) % length slots)
]

abbrev pub zeros : List ℕ → List ℕ
zeros [] = []
zeros (x ∷ xs) = 0 ∷ zeros xs

abbrev pub with_loads : List (Address × ℕ) → List ℕ → List (Address × ℕ)
with_loads ((node, slots) ∷ nodes) (load ∷ loads) = (node, load) ∷ with_loads nodes loads
with_loads _ _ = []

abbrev pub slots_of : List (Address × ℕ) → List ℕ
slots_of nodes = map (λ n. n.1) nodes

-- node_loads beside the nodes, once all requests are dealt.
unfoldable pub node_loads : ℕ → List (Address × ℕ) → Option (List (Address × ℕ))
unfolding deal
node_loads req_num nodes = elim (deal req_num (slots_of nodes) (zeros (slots_of nodes)) 0) [
  | none ↦ none
  | some loads ↦ some (with_loads nodes loads)
]
