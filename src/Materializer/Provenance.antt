-- ===== src/Materializer/Provenance.antt =====
-- prototype/materializer.py: `_provenance_reaches` and `_has_provenance_cycle`.
-- `adjacency` is a dict of sets. The order of a set is not specified, and the answers do not
-- depend on it (Provenance.Reaching, Provenance.Cycles).
pub mod Reaching
pub mod Visits
pub mod Cycles
pub mod Changes
pub mod Links
use ronro.Prelude.{
  ℕ, zero, suc, ◌+◌, String, Bool, true, false, Option, none, some, List, [], ◌∷◌, ◌++◌, ◌==◌,
  contains, length, if◌then◌else◌,
}
use ronro.Domain.{Edge, EdgeType}

abbrev pub is_provenance : EdgeType → Bool
is_provenance EdgeType.discussion_provenance = true
is_provenance _ = false

abbrev pub add_to_set : String → List String → List String
add_to_set x xs = if contains x xs then xs else x ∷ xs

-- adjacency.get(node_id, ())
unfoldable pub children : List Edge → String → List String
children [] a = []
children (e ∷ es) a =
    let rest = children es a in
    if is_provenance e.type
    then (if e.source_node_id == a then add_to_set e.target_node_id rest else rest)
    else rest

-- The keys of `adjacency`.
unfoldable pub sources : List Edge → List String
sources [] = []
sources (e ∷ es) =
    let rest = sources es in if is_provenance e.type then add_to_set e.source_node_id rest else rest

-- The `while pending` loop. The end of `pending` is the head of the list. `none`: out of fuel.
unfoldable pub reach_loop : List Edge → String → ℕ → List String → List String → Option Bool
reach_loop edges goal zero pending seen = none
reach_loop edges goal (suc fuel) [] seen = some false
reach_loop edges goal (suc fuel) (n ∷ pending) seen =
    let rest = reach_loop edges goal fuel pending seen in
    let deeper = reach_loop edges goal fuel (children edges n ++ pending) (n ∷ seen) in
    if n == goal then some true else if contains n seen then rest else deeper

abbrev pub is_some_true : Option Bool → Bool
is_some_true (some b) = b
is_some_true none = false

-- Each round pops one item, and each edge pushes at most one.
unfoldable pub provenance_reaches : List Edge → String → String → Bool
provenance_reaches edges start goal =
    is_some_true (reach_loop edges goal (length edges + 2) (start ∷ []) [])

-- What a call of `visit` leaves: it found a cycle, or it returned and left `visited`.
pub data Visit : Type 0 where
  out_of_fuel cycle : Visit
  done : List String → Visit

abbrev pub add_visited : String → Visit → Visit
add_visited n out_of_fuel = out_of_fuel
add_visited n cycle = cycle
add_visited n (done visited) = done (n ∷ visited)

-- A loop that calls `visit` and stops at the first cycle.
unfoldable pub visit_all : (List String → String → Visit) → List String → List String → Visit
visit_all call visited [] = done visited
visit_all call visited (c ∷ cs) = elim (call visited c) [
  | out_of_fuel ↦ out_of_fuel
  | cycle ↦ cycle
  | done visited' ↦ visit_all call visited' cs
]

-- `visiting` is an argument: the call that adds a Node removes it before it returns, and where it
-- does not (a cycle), nothing reads the set again.
unfoldable pub visit : List Edge → ℕ → List String → List String → String → Visit
visit edges zero visiting visited n = out_of_fuel
visit edges (suc fuel) visiting visited n =
    let below = visit_all (visit edges fuel (n ∷ visiting)) visited (children edges n) in
    let after = add_visited n below in
    if contains n visiting then cycle else if contains n visited then done visited else after

abbrev pub is_cycle : Visit → Bool
is_cycle cycle = true
is_cycle _ = false

-- The Nodes in `visiting` are distinct keys of `adjacency`, so the calls nest no deeper.
unfoldable pub cycle_search : List Edge → Visit
unfolding visit_all
cycle_search edges = visit_all (visit edges (length (sources edges) + 1) []) [] (sources edges)

unfoldable pub has_provenance_cycle : List Edge → Bool
unfolding cycle_search
has_provenance_cycle edges = is_cycle (cycle_search edges)
