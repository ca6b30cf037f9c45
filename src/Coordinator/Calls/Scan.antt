-- ===== src/Coordinator/Calls/Scan.antt =====
-- func_call_handler.cpp: the loop over node_status_map.
pub mod Found
use pheromone.Base.{
  ℕ, ◌+◌, Address, Bytes, Bool, List, [], ◌∷◌, ◌++◌, bytes_eq, ◌==◌, not, ◌&&◌, ltb, if◌then◌else◌,
}
use pheromone.Base.Int.{pos_part}
use pheromone.Base.Maps.{Map, is_empty}
use pheromone.Coordinator.Types.{NodeStatus}

-- What the loop has found; the counts are positive ints, and their sum does not wrap.
pub record Scanned : Type 0 where
  pub total_executors : ℕ
  pub avail_nodes : List (Address × ℕ)
  pub max_executors : ℕ
  pub node_with_max_executors : Address

-- !source.empty() && source == node
abbrev pub is_source : Address → Address → Bool
is_source source node = not (is_empty source) && source == node

unfoldable pub scan_node : Address → NodeStatus → Scanned → Scanned
scan_node node status s =
    let n = pos_part status.avail_executors in
    let bigger = ltb s.max_executors n in
    record {
      total_executors = s.total_executors + n;
      avail_nodes = if ltb 0 n then s.avail_nodes ++ (node, n) ∷ [] else s.avail_nodes;
      max_executors = if bigger then n else s.max_executors;
      node_with_max_executors = if bigger then node else s.node_with_max_executors;
    }

unfoldable pub scan_from : Address → Map Address NodeStatus → Scanned → Scanned
unfolding scan_node
scan_from source [] s = s
scan_from source ((node, status) ∷ nodes) s =
    scan_from source nodes (if is_source source node then s else scan_node node status s)

-- The variables before the loop.
abbrev pub nothing : Scanned
nothing = record {
  total_executors = 0;
  avail_nodes = [];
  max_executors = 0;
  node_with_max_executors = [];
}

unfoldable pub scan : Address → Map Address NodeStatus → Scanned
unfolding scan_from
scan source nodes = scan_from source nodes nothing
