-- ===== src/Coordinator/Calls/Share/Loads.antt =====
-- The loads beside their nodes.
use pheromone.Base.{
  ℕ, zero, suc, ◌+◌, ◌≤◌, ◌<◌, ◌≡◌, refl, ap, ◌∙◌, Address, List, [], ◌∷◌, some, arith, length, All,
  ◌⊎◌, inl, inr,
}
use pheromone.Coordinator.Calls.Share.{entry, zeros, with_loads, slots_of, node_loads}
use pheromone.Coordinator.Calls.Share.Seek.{sum}
use pheromone.Coordinator.Calls.Share.Deal.{InTurn, deal_total}

abbrev pub load_sum : List (Address × ℕ) → ℕ
load_sum [] = 0
load_sum ((node, load) ∷ nodes) = load + load_sum nodes

-- The nodes with a load come first.
abbrev pub NodesInTurn : List (Address × ℕ) → Type 0
NodesInTurn [] = Unit
NodesInTurn ((node, load) ∷ nodes) = ((0 < load) × NodesInTurn nodes) ⊎ (load + load_sum nodes ≡ 0)

-- The same nodes, each with no more than its slots.
abbrev pub Within : List (Address × ℕ) → List (Address × ℕ) → Type 0
Within [] [] = Unit
Within ((n, load) ∷ loads) ((m, slots) ∷ nodes) = (n ≡ m) × (load ≤ slots) × Within loads nodes
Within _ _ = ⊥

load_sum-with_loads :
    (nodes : List (Address × ℕ)) (r : List ℕ)
    → length r ≡ length nodes
    → load_sum (with_loads nodes r) ≡ sum r
load_sum-with_loads [] [] h = refl
load_sum-with_loads [] (x ∷ r) h = absurd (omega arith)
load_sum-with_loads (n ∷ nodes) [] h = absurd (omega arith)
load_sum-with_loads ((a, s) ∷ nodes) (x ∷ r) h =
    omega (arith, load_sum-with_loads nodes r (omega arith))

Within-with_loads :
    (nodes : List (Address × ℕ)) (r : List ℕ)
    → length r ≡ length nodes
    → ((i : ℕ) → entry r i ≤ entry (slots_of nodes) i)
    → Within (with_loads nodes r) nodes
Within-with_loads [] [] h b = tt
Within-with_loads [] (x ∷ r) h b = absurd (omega arith)
Within-with_loads (n ∷ nodes) [] h b = absurd (omega arith)
Within-with_loads ((a, s) ∷ nodes) (x ∷ r) h b =
    (refl, b 0, Within-with_loads nodes r (omega arith) (λ i. b (suc i)))

sum_of_none : (r : List ℕ) → ((i : ℕ) → entry r i ≡ 0) → sum r ≡ 0
sum_of_none [] h = refl
sum_of_none (x ∷ r) h = omega (arith, h 0, sum_of_none r (λ i. h (suc i)))

NodesInTurn-with_loads :
    (nodes : List (Address × ℕ)) (r : List ℕ)
    → length r ≡ length nodes
    → InTurn r
    → NodesInTurn (with_loads nodes r)
NodesInTurn-with_loads [] [] h t = tt
NodesInTurn-with_loads [] (x ∷ r) h t = absurd (omega arith)
NodesInTurn-with_loads (n ∷ nodes) [] h t = absurd (omega arith)
NodesInTurn-with_loads ((a, s) ∷ nodes) (suc x ∷ r) h t = inl (
  omega arith,
  NodesInTurn-with_loads nodes r (omega arith) (λ i j le p. t (suc i) (suc j) (omega arith) p),
)
NodesInTurn-with_loads ((a, s) ∷ nodes) (zero ∷ r) h t =
    let none_later = sum_of_none r λ i. no_load (entry r i) (λ p. t 0 (suc i) (omega arith) p) in
    inr (omega (arith, load_sum-with_loads nodes r (omega arith)))
  where
    no_load : (n : ℕ) → (0 < n → ◌<◌ 0 0) → n ≡ 0
    no_load zero f = refl
    no_load (suc n) f = absurd (omega (arith, f (omega arith)))

length-slots_of : (nodes : List (Address × ℕ)) → length (slots_of nodes) ≡ length nodes
length-slots_of [] = refl
length-slots_of (n ∷ nodes) = ap suc (length-slots_of nodes)

length-zeros : (xs : List ℕ) → length (zeros xs) ≡ length xs
length-zeros [] = refl
length-zeros (x ∷ xs) = ap suc (length-zeros xs)

entry-zeros : (xs : List ℕ) (i : ℕ) → entry (zeros xs) i ≡ 0
entry-zeros [] i = refl
entry-zeros (x ∷ xs) zero = refl
entry-zeros (x ∷ xs) (suc i) = entry-zeros xs i

sum-zeros : (xs : List ℕ) → sum (zeros xs) ≡ 0
sum-zeros [] = refl
sum-zeros (x ∷ xs) = omega (arith, sum-zeros xs)

entry_positive :
    (nodes : List (Address × ℕ)) (i : ℕ)
    → All (λ n. 0 < n.1) nodes
    → i < length (slots_of nodes)
    → 0 < entry (slots_of nodes) i
entry_positive [] i p h = absurd (omega arith)
entry_positive (n ∷ nodes) zero p h = p.0
entry_positive (n ∷ nodes) (suc i) p h = entry_positive nodes i p.1 (omega arith)

-- With a slot for each request and none of the nodes without a slot, the loads are found: they are
-- those of the same nodes, within their slots, as many as the requests, and those that are not 0
-- come first.
pub node_loads_total :
    (requests : ℕ) (nodes : List (Address × ℕ))
    → 0 < length nodes
    → All (λ n. 0 < n.1) nodes
    → requests ≤ sum (slots_of nodes)
    → (loads : List (Address × ℕ)) × (node_loads requests nodes ≡ some loads)
      × Within loads nodes
      × (load_sum loads ≡ requests)
      × NodesInTurn loads
unfolding node_loads
node_loads_total requests nodes some_node positive h =
    let slots = slots_of nodes in
    let ls = length-slots_of nodes in
    let lz = length-zeros slots in
    let (r, done, d) = deal_total requests slots (zeros slots) 0 lz (omega arith) h (
      inl (record {
        served = λ j p. absurd (omega arith);
        waiting = λ j p. entry-zeros slots j;
        free = λ j p k. entry_positive nodes j positive k;
      })) in
    let lr : length r ≡ length nodes = d.size ∙ lz ∙ ls in
    (
      with_loads nodes r,
      rw (done, node_loads) refl,
      Within-with_loads nodes r lr (λ i. omega (arith, d.bounded i, entry-zeros slots i)),
      load_sum-with_loads nodes r lr ∙ omega (arith, d.total, sum-zeros slots),
      NodesInTurn-with_loads nodes r lr d.in_turn,
    )
