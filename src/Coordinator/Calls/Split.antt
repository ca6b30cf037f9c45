-- ===== src/Coordinator/Calls/Split.antt =====
-- func_call_handler.cpp: the requests of a batch are cut into one call for each node.
pub mod Parts
use pheromone.Base.{
  ℕ, suc, ◌+◌, ◌≡◌, refl, Address, Bool, true, false, List, [], ◌∷◌, ◌++◌, Option, none, some,
  nat_beq, length,
}
use pheromone.Coordinator.Types.{FunctionRequest}

abbrev pub cons_part :
    Address × List FunctionRequest
    → Option (List (Address × List FunctionRequest))
    → Option (List (Address × List FunctionRequest))
cons_part p none = none
cons_part p (some ps) = some (p ∷ ps)

-- `part` holds the requests of the call that is being built, as many as cur_load. `none` is a read
-- of node_loads out of range.
unfoldable pub split_from :
    List FunctionRequest
    → List FunctionRequest
    → List (Address × ℕ)
    → Option (List (Address × List FunctionRequest))
split_from part [] nodes = some []
split_from part (r ∷ requests) [] = none
split_from part (r ∷ requests) ((node, load) ∷ nodes) =
    let part' = part ++ r ∷ [] in
    let next = cons_part (node, part') (split_from [] requests nodes) in
    let more = split_from part' requests ((node, load) ∷ nodes) in
    elim (nat_beq (length part') load) [ true ↦ next | false ↦ more ]

unfoldable pub split_calls :
    List FunctionRequest → List (Address × ℕ) → Option (List (Address × List FunctionRequest))
unfolding split_from
split_calls requests nodes = split_from [] requests nodes
