-- ===== src/Coordinator/Calls/Single.antt =====
-- A call of one function goes to a node with the most executors.
use mathlib.Core.List.{Memᴰ}
use native.Mathlib.Nat.{mod-lt}
use pheromone.Base.{
  ℕ, zero, suc, ◌%◌, ◌≤◌, ◌<◌, ◌≡◌, refl, Address, false, [], ◌∷◌, some, arith, length, ◌⊎◌, inl,
  inr, ltb, Bool-cases, get_elem?,
}
use pheromone.Base.Maps.{Map}
use pheromone.Coordinator.Types.{NodeStatus, FunctionCall}
use pheromone.Coordinator.Calls.Scan.{scan, is_source}
use pheromone.Coordinator.Calls.Scan.Found.{max_from, slots, scan_lem, scan-IsBest}
use pheromone.Coordinator.Calls.{schedule_single}

-- An index in range names an element.
element_at :
    (nodes : Map Address NodeStatus) (i : ℕ)
    → i < length nodes
    → (node : Address) × (status : NodeStatus) × (get_elem? nodes i ≡ some (node, status))
      × Memᴰ (node, status) nodes
element_at [] i h = absurd (omega arith)
element_at ((node, status) ∷ nodes) zero h = (node, status, refl, Memᴰ.head refl)
element_at (n ∷ nodes) (suc i) h =
    let (node, status, e, m) = element_at nodes i (omega arith) in (node, status, e, Memᴰ.tail m)

-- If there is a node at all, a call of one function goes, unchanged, to exactly one node of the map,
-- which has no fewer executors than any node that is not the call's source; it is itself not the
-- source, unless none of those has a free executor.
pub schedule_single-best :
    (rand_r : ℕ → ℕ × ℕ) (io_thread_num seed : ℕ) (call : FunctionCall)
    (nodes : Map Address NodeStatus)
    → 0 < length nodes
    → (node : Address) × (status : NodeStatus) × ((schedule_single rand_r io_thread_num seed call
          nodes).0
        ≡ (node, call) ∷ [])
      × Memᴰ (node, status) nodes
      × (max_from call.source nodes 0 ≤ slots status)
      × ((max_from call.source nodes 0 ≡ 0) ⊎ (is_source call.source node ≡ false))
unfolding schedule_single
schedule_single-best rand_r io_thread_num seed call nodes h =
    let max = (scan_lem call.source nodes).2 in
    elim (Bool-cases (ltb 0 (scan call.source nodes).max_executors)) [
      | inl some_free ↦
          let (status, m, other, count) = scan-IsBest call.source nodes (ground arith) in
          (
            (scan call.source nodes).node_with_max_executors,
            status,
            ground arith,
            m,
            omega arith,
            inr other,
          )
      | inr none_free ↦
          let i = (rand_r seed).0 % length nodes in
          let (node, status, e, m) = element_at nodes i (mod-lt (rand_r seed).0 h) in
          (node, status, ground (arith, e), m, ground arith, inl (ground arith))
    ]
