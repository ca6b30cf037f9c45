-- ===== src/Coordinator/Notify/Capacity.antt =====
-- notify_handler.cpp: the executors that the dispatched calls take.
use mathlib.Core.Path.{subst}
use pheromone.Base.{
  ℕ, ◌+◌, ◌≤◌, ◌<◌, ◌≡◌, refl, Address, Bool, true, false, List, [], ◌∷◌, none, arith, bytes_eq,
  ◌==◌, ==_iff, ==_refl, sym, ltb, if◌then◌else◌, Bool-cases, ◌⊎◌, inl, inr,
}
use pheromone.Base.Int.{pos_part}
use pheromone.Base.Maps.{Map, get, put, get_or, is_empty, Distinct, get-put, Distinct-put}
use pheromone.Coordinator.Types.{NodeStatus, empty_status}
use pheromone.Coordinator.Notify.Routing.{touch, free_of, with_data, anywhere, choose_worker}

-- The free executors of all nodes.
abbrev pub free_total : Map Address NodeStatus → ℕ
free_total [] = 0
free_total ((ip, status) ∷ nodes) = pos_part status.avail_executors + free_total nodes

pub free_total-put :
    (nodes : Map Address NodeStatus) (ip : Address) (status : NodeStatus)
    → free_total (put nodes ip status) + free_of ip nodes
      ≡ pos_part status.avail_executors + free_total nodes
unfolding get put
free_total-put [] ip status = omega arith
free_total-put ((j, s) ∷ nodes) ip status = ground (arith, free_total-put nodes ip status)

free_total-touch :
    (ip : Address) (nodes : Map Address NodeStatus) → free_total (touch ip nodes) ≡ free_total nodes
free_total-touch ip nodes =
    omega (arith, free_total-put nodes ip (get_or (get nodes ip) empty_status))

free_of-touch :
    (ip other : Address) (nodes : Map Address NodeStatus)
    → free_of other (touch ip nodes) ≡ free_of other nodes
free_of-touch ip other nodes = elim (Bool-cases (ip == other)) [
  | inl hit ↦ rw (get-put, hit, (==_iff ip other).0 hit) refl
  | inr miss ↦ rw (get-put, miss) refl
]

-- What the search has found so far.
pub record Chosen (worker : Address) (max : ℕ) (before after : Map Address NodeStatus)
    : Type 0 where
  pub free : (worker ≡ []) ⊎ ((free_of worker after ≡ max) × (0 < max))
  pub kept : Distinct after
  pub total : free_total after ≡ free_total before

Chosen-next :
    (ip worker : Address) (max : ℕ) (before nodes : Map Address NodeStatus) (bigger : Bool)
    → ltb max (free_of ip nodes) ≡ bigger
    → Chosen worker max before nodes
    → Chosen
        (if bigger then ip else worker)
        (if bigger then free_of ip nodes else max)
        before
        (touch ip nodes)
Chosen-next ip worker max before nodes true more c = record {
  free = inr (free_of-touch ip ip nodes, ground arith);
  kept = Distinct-put nodes ip _ c.kept;
  total = omega (arith, free_total-touch ip nodes, c.total);
}
Chosen-next ip worker max before nodes false less c = record {
  free = elim c.free [
    | inl e ↦ inl e
    | inr (e, p) ↦ inr (omega (arith, free_of-touch ip worker nodes), p)
  ];
  kept = Distinct-put nodes ip _ c.kept;
  total = omega (arith, free_total-touch ip nodes, c.total);
}

with_data-Chosen :
    (ips : List Address) (worker : Address) (max : ℕ) (before nodes : Map Address NodeStatus)
    → Chosen worker max before nodes
    → let (w, m, nodes') = with_data ips worker max nodes in Chosen w m before nodes'
unfolding with_data
with_data-Chosen [] worker max before nodes c = c
with_data-Chosen (ip ∷ ips) worker max before nodes c =
    with_data-Chosen ips _ _ before (touch ip nodes)
      (Chosen-next ip worker max before nodes (ltb max (free_of ip nodes)) refl c)

free_of_later :
    (ip j : Address) (status : NodeStatus) (nodes : Map Address NodeStatus)
    → get nodes j ≡ none
    → 0 < free_of ip nodes
    → 0 < free_of ip ((j, status) ∷ nodes)
unfolding get
free_of_later ip j status nodes new p = elim (Bool-cases (j == ip)) [
  | inl hit ↦ absurd (omega (arith, no_executor (rw (← ((==_iff j ip).0 hit)) at p)))
  | inr miss ↦ rw miss p
]
  where
    no_executor : 0 < free_of j nodes → 1 ≤ 0
    no_executor q = rw new at q

anywhere-free :
    (nodes : Map Address NodeStatus) (worker : Address) (max : ℕ)
    → Distinct nodes
    → (anywhere nodes worker max ≡ worker) ⊎ (0 < free_of (anywhere nodes worker max) nodes)
unfolding anywhere get
anywhere-free [] worker max d = inl refl
anywhere-free ((j, status) ∷ nodes) worker max d =
    let bigger = ltb max (pos_part status.avail_executors) in
    elim (anywhere-free nodes (if bigger then j else worker)
      (if bigger then pos_part status.avail_executors else max) d.1) [
        | inl e ↦ first (ltb max (pos_part status.avail_executors)) refl e
        | inr p ↦ inr (free_of_later _ j status nodes d.0 p)
      ]
  where
    found : Address
    found = anywhere ((j, status) ∷ nodes) worker max

    first :
        (b : Bool)
        → ltb max (pos_part status.avail_executors) ≡ b
        → found ≡ (if b then j else worker)
        → (found ≡ worker) ⊎ (0 < free_of found ((j, status) ∷ nodes))
    first true more e =
        inr
          (subst (λ x. 0 < free_of x ((j, status) ∷ nodes)) (sym e) (rw (==_refl j) (ground arith)))
    first false less e = inl e

-- The worker is a node with a free executor, or there is none; the map has gained only nodes
-- without executors.
abbrev pub IsFree : Map Address NodeStatus → Address × Map Address NodeStatus → Type 0
IsFree before (worker, after) =
    ((worker ≡ []) ⊎ (0 < free_of worker after))
    × Distinct after
    × (free_total after ≡ free_total before)

pub choose_worker-IsFree :
    (data_node : List Address) (nodes : Map Address NodeStatus)
    → Distinct nodes
    → IsFree nodes (choose_worker data_node nodes)
unfolding choose_worker
choose_worker-IsFree data_node nodes d =
    let (w, m, nodes') = with_data data_node [] 0 nodes in
    either w m nodes' (
      with_data-Chosen data_node [] 0 nodes nodes
        (record { free = inl refl; kept = d; total = refl }))
  where
    either :
        (w : Address) (m : ℕ) (nodes' : Map Address NodeStatus)
        → Chosen w m nodes nodes'
        → IsFree nodes (if is_empty w then (anywhere nodes' [] m, nodes') else (w, nodes'))
    either [] m nodes' c = (anywhere-free nodes' [] m c.kept, c.kept, c.total)
    either (x ∷ w) m nodes' c =
        (elim c.free [ inl e ↦ inl e | inr (e, p) ↦ inr (omega arith) ], c.kept, c.total)
