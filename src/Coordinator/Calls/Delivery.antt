-- ===== src/Coordinator/Calls/Delivery.antt =====
-- The calls of a shared batch all stand in the map of the scheduled nodes.
use pheromone.Base.{
  ℕ, ◌≤◌, ◌<◌, ◌≡◌, refl, sym, ap, ◌∙◌, Address, List, [], ◌∷◌, ◌++◌, map, none, some, arith,
  length, All, ==_comm, bytes_eq, ltb, Bool-cases, inl, inr,
}
use pheromone.Base.Maps.{Map, get, put, Distinct, get-put}
use pheromone.Coordinator.Types.{NodeStatus, FunctionCall}
use pheromone.Coordinator.Calls.Scan.Found.{counted, counted_nodes, max_from}
use pheromone.Coordinator.Calls.Share.Loads.{Within}
use pheromone.Coordinator.Calls.Split.Parts.{Part, busy, sizes, joined}
use pheromone.Coordinator.Calls.{put_parts, Scheduled, routed_call, schedule_batch}
use pheromone.Coordinator.Calls.Batch.{schedule_batch-shared}
use pheromone.Coordinator.Calls.Share.{slots_of}
use pheromone.Coordinator.Calls.Share.Seek.{sum}
use mathlib.Core.List.{append_assoc, append-nil}

get_counted :
    (source : Address) (nodes : Map Address NodeStatus) (node : Address)
    → get nodes node ≡ none
    → get (counted_nodes source nodes) node ≡ none
unfolding get
get_counted source [] node h = refl
get_counted source ((n, status) ∷ nodes) node h = ground (arith, get_counted source nodes node)

counted_nodes-Distinct :
    (source : Address) (nodes : Map Address NodeStatus)
    → Distinct nodes
    → Distinct (counted_nodes source nodes)
counted_nodes-Distinct source [] d = tt
counted_nodes-Distinct source ((n, status) ∷ nodes) d =
    let rest = counted_nodes-Distinct source nodes d.1 in
    elim (Bool-cases (ltb 0 (counted source (n, status)))) [
      | inl p ↦ rw p (get_counted source nodes n d.0, rest)
      | inr p ↦ rw p rest
    ]

get-Within :
    (loads nodes : List (Address × ℕ)) (node : Address)
    → Within loads nodes
    → get nodes node ≡ none
    → get loads node ≡ none
unfolding get
get-Within [] nodes node w h = refl
get-Within ((n, l) ∷ loads) [] node w h = elim w [ ]
get-Within ((n, l) ∷ loads) ((m, s) ∷ nodes) node w h =
    let same = w.0 in ground (arith, get-Within loads nodes node w.2)

Within-Distinct :
    (loads nodes : List (Address × ℕ)) → Within loads nodes → Distinct nodes → Distinct loads
Within-Distinct [] nodes w d = tt
Within-Distinct ((n, l) ∷ loads) [] w d = elim w [ ]
Within-Distinct ((n, l) ∷ loads) ((m, s) ∷ nodes) w d =
    (get-Within loads nodes n w.2 (rw w.0 d.0), Within-Distinct loads nodes w.2 d.1)

get-busy :
    (loads : List (Address × ℕ)) (node : Address)
    → get loads node ≡ none
    → get (busy loads) node ≡ none
unfolding get
get-busy [] node h = refl
get-busy ((n, l) ∷ loads) node h = ground (arith, get-busy loads node)

busy-Distinct : (loads : List (Address × ℕ)) → Distinct loads → Distinct (busy loads)
busy-Distinct [] d = tt
busy-Distinct ((n, l) ∷ loads) d =
    let rest = busy-Distinct loads d.1 in
    elim (Bool-cases (ltb 0 l)) [ inl p ↦ rw p (get-busy loads n d.0, rest) | inr p ↦ rw p rest ]

put_new :
    (m : Scheduled) (node : Address) (call : FunctionCall)
    → get m node ≡ none
    → put m node call ≡ m ++ (node, call) ∷ []
unfolding get put
put_new [] node call h = refl
put_new ((n, c) ∷ m) node call h = ground (arith, put_new m node call)

abbrev IsNew : Scheduled → Part → Type 0
IsNew m p = get m p.0 ≡ none

IsNew-put :
    (parts : List Part) (m : Scheduled) (node : Address) (call : FunctionCall)
    → get (sizes parts) node ≡ none
    → All (IsNew m) parts
    → All (IsNew (put m node call)) parts
unfolding get
IsNew-put [] m node call h a = tt
IsNew-put ((n, requests) ∷ parts) m node call h a = (
  ground (arith, get-put m node n call, ==_comm node n, a.0),
  IsNew-put parts m node call (ground arith) a.1,
)

put_parts-append :
    (routed : FunctionCall) (parts : List Part) (m : Scheduled)
    → Distinct (sizes parts)
    → All (IsNew m) parts
    → put_parts routed parts m ≡ m ++ map (λ p. (p.0, record routed { requests = p.1 })) parts
put_parts-append routed [] m d a = sym (append-nil m)
put_parts-append routed ((node, requests) ∷ parts) m d a =
    let call : FunctionCall = record routed { requests = requests } in
    put_parts-append routed parts (put m node call) d.1 (IsNew-put parts m node call d.0 a.1)
    ∙ ap (λ x. x ++ map (λ p. (p.0, record routed { requests = p.1 })) parts)
        (put_new m node call a.0)
    ∙ append_assoc m ((node, call) ∷ []) _

All-IsNew : (parts : List Part) → All (IsNew []) parts
unfolding get
All-IsNew [] = tt
All-IsNew (p ∷ parts) = (refl, All-IsNew parts)

-- When every node has one status and no node has an executor for each request of a batch, but the
-- nodes together do, the batch is shared: the loops end, and one call is scheduled for each part,
-- none replaced by another. The parts together are the call's requests, in order. The parts' nodes,
-- with the number of requests in each, are the nodes with a load, where every load is within the
-- executors of one of the nodes that have a free executor and are not the source. Each call has the
-- app name and the response address of the call that is shared, and no session.
pub schedule_batch-delivery :
    (call : FunctionCall) (nodes : Map Address NodeStatus)
    → Distinct nodes
    → max_from call.source nodes 0 < length call.requests
    → length call.requests ≤ sum (slots_of (counted_nodes call.source nodes))
    → (parts : List Part) × (loads : List (Address × ℕ)) × (schedule_batch call nodes
        ≡ some (map (λ p. (p.0, record (routed_call call) { requests = p.1 })) parts))
      × (joined parts ≡ call.requests)
      × (sizes parts ≡ busy loads)
      × Within loads (counted_nodes call.source nodes)
schedule_batch-delivery call nodes d many enough =
    let (parts, loads, done, all, sz, within) = schedule_batch-shared call nodes many enough in
    let dl = Within-Distinct loads _ within (counted_nodes-Distinct call.source nodes d) in
    let dp : Distinct (sizes parts) = rw sz (busy-Distinct loads dl) in
    (
      parts,
      loads,
      done ∙ ap some (put_parts-append (routed_call call) parts [] dp (All-IsNew parts)),
      all,
      sz,
      within,
    )
