-- ===== src/Coordinator/Notify/Routing.antt =====
-- notify_handler.cpp: the worker is the node with the most executors among those that hold the
-- data, or else among all.
use pheromone.Base.{ℕ, Address, List, [], ◌∷◌, bytes_eq, ltb, if◌then◌else◌}
use pheromone.Base.Int.{pos_part}
use pheromone.Base.Maps.{Map, get, put, get_or, is_empty}
use pheromone.Coordinator.Types.{NodeStatus, empty_status}

-- node_status_map[ip] makes an entry for a node that has not reported.
abbrev pub touch : Address → Map Address NodeStatus → Map Address NodeStatus
touch ip nodes = put nodes ip (get_or (get nodes ip) empty_status)

abbrev pub free_of : Address → Map Address NodeStatus → ℕ
free_of ip nodes = pos_part (get_or (get nodes ip) empty_status).avail_executors

-- The loop over data_node: the worker, its executors, and the map.
unfoldable pub with_data :
    List Address → Address → ℕ → Map Address NodeStatus → Address × ℕ × Map Address NodeStatus
with_data [] worker max nodes = (worker, max, nodes)
with_data (ip ∷ ips) worker max nodes =
    let bigger = ltb max (free_of ip nodes) in
    with_data ips (if bigger then ip else worker) (if bigger then free_of ip nodes else max)
      (touch ip nodes)

-- The loop over node_status_map.
unfoldable pub anywhere : Map Address NodeStatus → Address → ℕ → Address
anywhere [] worker max = worker
anywhere ((ip, status) ∷ nodes) worker max =
    let bigger = ltb max (pos_part status.avail_executors) in
    anywhere nodes (if bigger then ip else worker)
      (if bigger then pos_part status.avail_executors else max)

-- The worker, empty if no node has a free executor, and the map.
unfoldable pub choose_worker :
    List Address → Map Address NodeStatus → Address × Map Address NodeStatus
choose_worker data_node nodes =
    let (worker, max, nodes') = with_data data_node [] 0 nodes in
    if is_empty worker then (anywhere nodes' [] max, nodes') else (worker, nodes')
