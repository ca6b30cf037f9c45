-- ===== src/Coordinator/Calls/Batch.antt =====
-- A batch of calls that no single node can take is shared by the nodes.
use pheromone.Base.{ℕ, ◌≤◌, ◌<◌, ◌≡◌, sym, Address, List, [], ◌∷◌, some, arith, length}
use pheromone.Base.Maps.{Map}
use pheromone.Coordinator.Types.{NodeStatus, FunctionCall}
use pheromone.Coordinator.Calls.Scan.Found.{
  counted_nodes, counted_nodes-positive, max_from, scan_lem,
}
use pheromone.Coordinator.Calls.Share.{slots_of}
use pheromone.Coordinator.Calls.Share.Seek.{sum}
use pheromone.Coordinator.Calls.Share.Loads.{Within, node_loads_total}
use pheromone.Coordinator.Calls.Split.Parts.{Part, joined, sizes, busy, split_calls_total}
use pheromone.Coordinator.Calls.{schedule_batch, put_parts, routed_call}

some_nodes : (nodes : List (Address × ℕ)) → 0 < sum (slots_of nodes) → 0 < length nodes
some_nodes [] h = h
some_nodes (n ∷ nodes) h = omega arith

-- When no node has an executor for each request of a batch but the nodes together do, the batch is
-- shared: the loops end, and the calls hold all requests, in order, those for one node no more than
-- its executors. The calls go to the nodes with a load, of the nodes that have a free executor and
-- are not the source.
pub schedule_batch-shared :
    (call : FunctionCall) (nodes : Map Address NodeStatus)
    → max_from call.source nodes 0 < length call.requests
    → length call.requests ≤ sum (slots_of (counted_nodes call.source nodes))
    → (parts : List Part) × (loads : List (Address × ℕ)) × (schedule_batch call nodes
        ≡ some (put_parts (routed_call call) parts []))
      × (joined parts ≡ call.requests)
      × (sizes parts ≡ busy loads)
      × Within loads (counted_nodes call.source nodes)
unfolding schedule_batch
schedule_batch-shared call nodes many enough =
    let (avail, total, max) = scan_lem call.source nodes in
    let (loads, dealt, within, all_loads, in_turn) =
      node_loads_total (length call.requests) (counted_nodes call.source nodes)
        (some_nodes (counted_nodes call.source nodes) (omega arith))
        (counted_nodes-positive call.source nodes) enough in
    let (parts, cut, all, sz) = split_calls_total call.requests loads in_turn (sym all_loads) in
    (parts, loads, ground (arith, avail, total, max, dealt, cut), all, sz, within)
