-- ===== src/Coordinator/Calls/Scan/Found.antt =====
-- What the loop over the nodes finds.
use mathlib.Core.List.{Memᴰ, append-nil, append_assoc}
use native.Mathlib.Nat.{le_refl}
use pheromone.Base.{
  ℕ, ◌+◌, ◌≤◌, ◌<◌, ◌≡◌, refl, sym, ap, ◌∙◌, Address, false, List, [], ◌∷◌, ◌++◌, arith, All, ltb,
  if◌then◌else◌, ◌⊎◌, inl, inr, Bool-cases,
}
use pheromone.Base.Int.{pos_part}
use pheromone.Base.Maps.{Map}
use pheromone.Coordinator.Types.{NodeStatus}
use pheromone.Coordinator.Calls.Scan.{Scanned, is_source, scan_node, scan_from, scan, nothing}
use pheromone.Coordinator.Calls.Share.{slots_of}
use pheromone.Coordinator.Calls.Share.Seek.{sum}

abbrev pub slots : NodeStatus → ℕ
slots status = pos_part status.avail_executors

-- The executors of a node that the loop skips do not count.
abbrev pub counted : Address → Address × NodeStatus → ℕ
counted source (node, status) = if is_source source node then 0 else slots status

abbrev pub counted_nodes : Address → Map Address NodeStatus → List (Address × ℕ)
counted_nodes source [] = []
counted_nodes source ((node, status) ∷ nodes) =
    if ltb 0 (counted source (node, status))
    then (node, counted source (node, status)) ∷ counted_nodes source nodes
    else counted_nodes source nodes

-- The list of the loop is that of the counted nodes with a free executor, in the map's order.
avail_nodes_lem :
    (source : Address) (nodes : Map Address NodeStatus) (s : Scanned)
    → (scan_from source nodes s).avail_nodes ≡ s.avail_nodes ++ counted_nodes source nodes
unfolding scan_from scan_node
avail_nodes_lem source [] s = sym (append-nil s.avail_nodes)
avail_nodes_lem source ((node, status) ∷ nodes) s = elim (Bool-cases (is_source source node)) [
  | inl skip ↦ rw (skip, scan_from) (avail_nodes_lem source nodes s)
  | inr keep ↦ rw (keep, scan_from) (avail_nodes_lem source nodes (scan_node node status s) ∙ grown)
]
  where
    grown :
        (scan_node node status s).avail_nodes ++ counted_nodes source nodes
        ≡ s.avail_nodes
          ++ (if ltb 0 (slots status)
              then (node, slots status) ∷ counted_nodes source nodes
              else counted_nodes source nodes)
    grown =
        ground (
          arith,
          append_assoc s.avail_nodes ((node, slots status) ∷ []) (counted_nodes source nodes),
        )

total_lem :
    (source : Address) (nodes : Map Address NodeStatus) (s : Scanned)
    → (scan_from source nodes s).total_executors
      ≡ s.total_executors + sum (slots_of (counted_nodes source nodes))
unfolding scan_from scan_node
total_lem source [] s = omega arith
total_lem source ((node, status) ∷ nodes) s = elim (Bool-cases (is_source source node)) [
  | inl skip ↦ rw (skip, scan_from) (total_lem source nodes s)
  | inr keep ↦
      rw (keep, scan_from) (ground (arith, total_lem source nodes (scan_node node status s)))
]

pub counted_nodes-positive :
    (source : Address) (nodes : Map Address NodeStatus)
    → All (λ n. 0 < n.1) (counted_nodes source nodes)
counted_nodes-positive source [] = tt
counted_nodes-positive source ((node, status) ∷ nodes) =
    let rest = counted_nodes-positive source nodes in
    elim (Bool-cases (ltb 0 (counted source (node, status)))) [
      | inl p ↦ rw p (ground arith, rest)
      | inr p ↦ rw p rest
    ]

-- The largest count of the nodes, or the one before the loop.
abbrev pub max_from : Address → Map Address NodeStatus → ℕ → ℕ
max_from source [] m = m
max_from source (n ∷ nodes) m =
    max_from source nodes (if ltb m (counted source n) then counted source n else m)

max_lem :
    (source : Address) (nodes : Map Address NodeStatus) (s : Scanned)
    → (scan_from source nodes s).max_executors ≡ max_from source nodes s.max_executors
unfolding scan_from scan_node
max_lem source [] s = refl
max_lem source ((node, status) ∷ nodes) s = elim (Bool-cases (is_source source node)) [
  | inl skip ↦
      let same : (if ltb s.max_executors 0 then 0 else s.max_executors) ≡ s.max_executors =
        ground arith in
      rw (skip, scan_from) (max_lem source nodes s ∙ ap (max_from source nodes) (sym same))
  | inr keep ↦ rw (keep, scan_from) (max_lem source nodes (scan_node node status s))
]

-- The node of the largest count: one that is not the source and has that many executors.
abbrev pub IsBest : Address → Map Address NodeStatus → Address → ℕ → Type 0
IsBest source nodes node count =
    (status : NodeStatus) × Memᴰ (node, status) nodes
    × (is_source source node ≡ false)
    × (slots status ≡ count)

IsBest-tail :
    (source : Address) (n : Address × NodeStatus) (nodes : Map Address NodeStatus) (node : Address)
    (count : ℕ)
    → IsBest source nodes node count
    → IsBest source (n ∷ nodes) node count
IsBest-tail source n nodes node count (st, m, k, c) = (st, Memᴰ.tail m, k, c)

-- Either nothing was found and the loop's values are the old ones, or they are a best node's.
abbrev Outcome : Address → Map Address NodeStatus → Scanned → Scanned → Type 0
Outcome source nodes s t =
    ((t.max_executors ≡ s.max_executors) × (t.node_with_max_executors ≡ s.node_with_max_executors))
    ⊎ IsBest source nodes t.node_with_max_executors t.max_executors

Outcome-head :
    (source node : Address) (status : NodeStatus) (nodes : Map Address NodeStatus) (s t : Scanned)
    → is_source source node ≡ false
    → Outcome source nodes (scan_node node status s) t
    → Outcome source ((node, status) ∷ nodes) s t
unfolding scan_node
Outcome-head source node status nodes s t keep (inr b) =
    inr (IsBest-tail source (node, status) nodes _ _ b)
Outcome-head source node status nodes s t keep (inl (em, en)) =
    elim (Bool-cases (ltb s.max_executors (slots status))) [
      | inl big ↦
          let at : t.node_with_max_executors ≡ node = en ∙ ground arith in
          let count : t.max_executors ≡ slots status = em ∙ ground arith in
          inr (status, Memᴰ.head (cc), (rw at keep), sym count)
      | inr small ↦ inl (em ∙ ground arith, en ∙ ground arith)
    ]

best_lem :
    (source : Address) (nodes : Map Address NodeStatus) (s : Scanned)
    → Outcome source nodes s (scan_from source nodes s)
unfolding scan_from
best_lem source [] s = inl (refl, refl)
best_lem source ((node, status) ∷ nodes) s = elim (Bool-cases (is_source source node)) [
  | inl skip ↦
      rw (skip, scan_from)
        (elim (best_lem source nodes s) [
          | inl old ↦ inl old
          | inr b ↦ inr (IsBest-tail source (node, status) nodes _ _ b)
        ])
  | inr keep ↦
      rw (keep, scan_from)
        (Outcome-head source node status nodes s (scan_from source nodes (scan_node node status s))
          keep (best_lem source nodes (scan_node node status s)))
]

-- The result of the whole loop: the counted nodes in order, their executors in all, the largest
-- count, and, if that is not 0, a node that has it and is not the source.
pub scan_lem :
    (source : Address) (nodes : Map Address NodeStatus)
    → ((scan source nodes).avail_nodes ≡ counted_nodes source nodes)
      × ((scan source nodes).total_executors ≡ sum (slots_of (counted_nodes source nodes)))
      × ((scan source nodes).max_executors ≡ max_from source nodes 0)
unfolding scan
scan_lem source nodes =
    (avail_nodes_lem source nodes _, total_lem source nodes _ ∙ omega arith, max_lem source nodes _)

pub scan-IsBest :
    (source : Address) (nodes : Map Address NodeStatus)
    → 0 < (scan source nodes).max_executors
    → IsBest source nodes
        (scan source nodes).node_with_max_executors
        (scan source nodes).max_executors
unfolding scan
scan-IsBest source nodes h = elim (best_lem source nodes nothing) [
  | inl (em, en) ↦ absurd (omega arith)
  | inr b ↦ b
]

max_from-ge :
    (source : Address) (nodes : Map Address NodeStatus) (m : ℕ) → m ≤ max_from source nodes m
max_from-ge source [] m = omega arith
max_from-ge source (n ∷ nodes) m =
    let r = max_from-ge source nodes (if ltb m (counted source n) then counted source n else m) in
    ground arith

-- No node that is not the source has more executors than the largest count.
pub max_from-upper :
    (source : Address) (nodes : Map Address NodeStatus) (m : ℕ)
    → All (λ n. counted source n ≤ max_from source nodes m) nodes
max_from-upper source nodes m = upper source nodes (max_from source nodes m) m (le_refl _)
  where
    upper :
        (source : Address) (nodes : Map Address NodeStatus) (top m : ℕ)
        → max_from source nodes m ≤ top
        → All (λ n. counted source n ≤ top) nodes
    upper source [] top m h = tt
    upper source (n ∷ nodes) top m h =
        let m' = if ltb m (counted source n) then counted source n else m in
        let r = max_from-ge source nodes m' in (ground arith, upper source nodes top m' h)
