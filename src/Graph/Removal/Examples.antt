-- ===== src/Graph/Removal/Examples.antt =====
-- Updates of a small graph: a, b and c, with b between the others, and then no b.
use stair_platform.Prelude.{
  ℕ, String, ◌≡◌, refl, ◌⊎◌, true, not, ◌&&◌, ◌||◌, none, some, List, [], ◌∷◌, str_eq, lookup,
  insert, contains, add,
}
use stair_platform.Graph.Snapshot.{snapshot, restore}
use stair_platform.Graph.Snapshot.Restored.{restore-snapshot}
use stair_platform.Graph.{
  node, edge, Graph, Outcome, ok, new, has_node, successors, predecessors, remove_node, add_node,
  add_edge, with_id, link,
}
use stair_platform.Graph.Keys.{is_plain}
use stair_platform.Graph.Search.{EndsAreNodes}
use stair_platform.Graph.Topology.{topological_sort}
use stair_platform.Graph.Topology.Sorting.{IsTopological}
use stair_platform.Graph.Removal.Updates.{
  Update, put_node, put_edge, cut_edge, cut_node, apply_all, all_simple, apply_all-IsTopological,
  remove_node-neighbours,
}

abbrev part : String → Update ℕ ℕ
part id =
    put_node
      (record { id = id; type = "part"; version = 0; state = ""; payload = 0; metadata = [] })

abbrev join : String → String → Update ℕ ℕ
join a b = put_edge (record { id = ""; from = a; to = b; type = ""; weight = 0; metadata = [] })

abbrev chain : List (Update ℕ ℕ)
chain = part "a" ∷ part "b" ∷ part "c" ∷ join "a" "b" ∷ join "b" "c" ∷ []

abbrev updates : List (Update ℕ ℕ)
updates =
    part "a"
    ∷ part "b"
    ∷ part "c"
    ∷ join "a" "b"
    ∷ join "b" "c"
    ∷ join "c" "a"
    ∷ cut_edge "c" "a"
    ∷ cut_node "b"
    ∷ []

simple_updates : all_simple updates ≡ true
unfolding is_plain
simple_updates = refl

simple_chain : all_simple chain ≡ true
unfolding is_plain
simple_chain = refl

apply_all-IsTopological_example :
    (g : Graph ℕ ℕ) × (apply_all updates new ≡ ok g)
    × EndsAreNodes g
    × (((order : List String) × (topological_sort g ≡ some order) × IsTopological g order)
        ⊎ ((topological_sort g ≡ none) × ((order : List String) → ¬ IsTopological g order)))
apply_all-IsTopological_example = apply_all-IsTopological updates simple_updates

abbrev graph_or_new : Outcome (Graph ℕ ℕ) → Graph ℕ ℕ
graph_or_new (ok g) = g
graph_or_new _ = new

chain_graph : Graph ℕ ℕ
chain_graph = graph_or_new (apply_all chain new)

chain_built : apply_all chain new ≡ ok chain_graph
unfolding chain_graph apply_all add_node add_edge with_id link lookup insert add new has_node
    contains
chain_built = refl

b_is_node : has_node "b" chain_graph ≡ true
unfolding chain_graph apply_all add_node add_edge with_id link lookup insert add new has_node
    contains
b_is_node = refl

remove_node-neighbours_example :
    ((a : String)
      → has_node a (remove_node "b" chain_graph).0 ≡ (not (str_eq "b" a) && has_node a chain_graph))
    × ((a b : String)
        → contains (successors a (remove_node "b" chain_graph).0) b
          ≡ (not (str_eq "b" a || str_eq "b" b) && contains (successors a chain_graph) b))
    × ((a b : String)
        → contains (predecessors b (remove_node "b" chain_graph).0) a
          ≡ (not (str_eq "b" a || str_eq "b" b) && contains (predecessors b chain_graph) a))
remove_node-neighbours_example =
    remove_node-neighbours chain chain_graph "b" simple_chain chain_built b_is_node

restore-snapshot_example :
    (g' : Graph ℕ ℕ) × (restore (snapshot chain_graph) ≡ some g')
    × (g'.revision ≡ chain_graph.revision)
    × ((id : String) → node id g' ≡ node id chain_graph)
    × ((id : String) → edge id g' ≡ edge id chain_graph)
    × ((a b : String) → contains (successors a g') b ≡ contains (successors a chain_graph) b)
    × ((a b : String) → contains (predecessors b g') a ≡ contains (predecessors b chain_graph) a)
restore-snapshot_example = restore-snapshot chain chain_graph simple_chain chain_built
