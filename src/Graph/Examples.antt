-- ===== src/Graph/Examples.antt =====
-- The searches on a small graph.
use stair_platform.Prelude.{
  ℕ, suc, ◌+◌, length, ◌≤◌, String, ◌≡◌, refl, ◌≢◌, ◌↔◌, ◌⊎◌, Bool, true, false, Option, none, some,
  List, [], ◌∷◌, arith, eq_iff, if◌then◌else◌, lookup, insert, contains, str_lt, sink, sort_strings,
  ◌+ℤ◌, ◌-ℤ◌, contains-sort_strings, occurs, occurs-sort_strings,
}
use stair_platform.Graph.{keys, new, ok, or_empty, Graph, Edge, Node, successors, has_node, count}
use stair_platform.Graph.Traversal.{dfs, dfs_from, each, other_than, transitive_dependents}
use stair_platform.Graph.Search.{EndsAreNodes, Reach, dfs-Reach, transitive_dependents-Reach}
use stair_platform.Graph.Plan.{plan, select, roots, expand, dirty_set}
use stair_platform.Graph.Plan.Dirty.{IsDirty}
use stair_platform.Graph.Plan.Dependents.{InOrder, plan-IsDirty}
use stair_platform.Graph.Building.{Op, op_node, op_edge, run, run-EndsAreNodes}
use stair_platform.Graph.Topology.Degrees.{edges_to, HasUniqueKeys, insert-HasUniqueKeys}
use stair_platform.Graph.Topology.Waiting.{waiting}
use stair_platform.Graph.Topology.Rounds.{IsFaithful}
use stair_platform.Graph.Topology.Sorting.{IsTopological, topological_sort-IsTopological}
use stair_platform.Graph.Topology.{
  topological_sort, kahn_order, kahn, sources, in_degrees, count_edges, zeros, relax, push_sorted,
}

abbrev node_named : String → String × Node ℕ
node_named id = (
  id,
  record { id = id; type = "part"; version = 1; state = "dirty"; payload = 0; metadata = [] },
)

abbrev edge_between : String → String → String → String × Edge ℕ
edge_between id a b =
    (id, record { id = id; from = a; to = b; type = "uses"; weight = 1; metadata = [] })

-- a to b to c.
abbrev chain : Graph ℕ ℕ
chain = record {
  nodes = node_named "a" ∷ node_named "b" ∷ node_named "c" ∷ [];
  edges = edge_between "a->b" "a" "b" ∷ edge_between "b->c" "b" "c" ∷ [];
  outgoing = ("a", "b" ∷ []) ∷ ("b", "c" ∷ []) ∷ ("c", []) ∷ [];
  incoming = ("a", []) ∷ ("b", "a" ∷ []) ∷ ("c", "b" ∷ []) ∷ [];
  revision = 5;
}

-- Two edges with the same ends count twice in the in-degree and are subtracted once, so the sort
-- reports a cycle.
abbrev parallel : Graph ℕ ℕ
parallel = record {
  nodes = node_named "a" ∷ node_named "b" ∷ [];
  edges = edge_between "e1" "a" "b" ∷ edge_between "e2" "a" "b" ∷ [];
  outgoing = ("a", "b" ∷ []) ∷ ("b", []) ∷ [];
  incoming = ("a", []) ∷ ("b", "a" ∷ []) ∷ [];
  revision = 4;
}

sort_chain : topological_sort chain ≡ some ("a" ∷ "b" ∷ "c" ∷ [])
unfolding topological_sort kahn_order kahn sort_strings sources in_degrees count_edges insert zeros
    ◌+ℤ◌ lookup sink relax successors ◌-ℤ◌ push_sorted count
sort_chain = refl

sort_parallel : topological_sort parallel ≡ none
unfolding topological_sort kahn_order kahn sort_strings sources in_degrees count_edges insert zeros
    ◌+ℤ◌ lookup sink relax successors ◌-ℤ◌ count
sort_parallel = refl

dependents_chain : transitive_dependents "a" chain ≡ "b" ∷ "c" ∷ []
unfolding transitive_dependents dfs dfs_from each other_than sort_strings sink lookup contains
    successors has_node str_lt
dependents_chain = refl

chain_ends : EndsAreNodes chain
unfolding successors has_node lookup contains
chain_ends a b h =
    let h' : contains (or_empty (lookup a chain.outgoing)) b ≡ true =
      rw contains-sort_strings at h in
    ground
      (arith, eq_iff "a" a, eq_iff "b" a, eq_iff "c" a, eq_iff "a" b, eq_iff "b" b, eq_iff "c" b)

dfs-Reach_example :
    ((y : String) → (contains (dfs "a" (λ _. true) chain) y ≡ true) ↔ Reach chain "a" y)
    × ((more : ℕ)
        → (dfs_from (λ _. true) chain (more + suc (suc (length chain.nodes))) "a" ([], [])).1
          ≡ dfs "a" (λ _. true) chain)
dfs-Reach_example = dfs-Reach chain chain_ends "a"

-- An id, as a text.
abbrev c_id : String
c_id = "c"

transitive_dependents-Reach_example :
    (contains (transitive_dependents "a" chain) "c" ≡ true) ↔ ((c_id ≢ "a") × Reach chain "a" "c")
transitive_dependents-Reach_example = transitive_dependents-Reach chain chain_ends "a" "c"

-- The chain, built; the edge to an id that is no node is refused.
abbrev building : List (Op ℕ ℕ)
building =
    op_node (node_named "a").1
    ∷ op_node (node_named "b").1
    ∷ op_edge (edge_between "" "a" "b").1
    ∷ op_edge (edge_between "" "b" "c").1
    ∷ []

run-EndsAreNodes_example :
    (g : Graph ℕ ℕ) × (run building new ≡ ok g)
    × EndsAreNodes g
    × ((id y : String)
        → (contains (transitive_dependents id g) y ≡ true) ↔ ((y ≢ id) × Reach g id y))
run-EndsAreNodes_example = run-EndsAreNodes building

chain_unique : HasUniqueKeys chain.nodes
unfolding insert keys lookup occurs
chain_unique = insert-HasUniqueKeys "c" (node_named "c").1 (node_named "a" ∷ node_named "b" ∷ []) (
    insert-HasUniqueKeys "b" (node_named "b").1 (node_named "a" ∷ [])
      (insert-HasUniqueKeys "a" (node_named "a").1 [] (λ x. refl)))

occurs-or_empty :
    (x : String) (b : Bool) (xs : List String) (o : Option (List String))
    → occurs x (or_empty (if b then some xs else o))
      ≡ (if b then occurs x xs else occurs x (or_empty o))
occurs-or_empty x true xs o = refl
occurs-or_empty x false xs o = refl

chain_sets : (a x : String) → occurs x (successors a chain) ≤ 1
unfolding successors lookup occurs
chain_sets a x =
    rw (occurs-sort_strings, occurs-or_empty, occurs-or_empty, occurs-or_empty) (ground arith)

chain_counted :
    (x : String)
    → edges_to x chain.edges ≡ waiting (λ a. successors a chain) [] x (keys chain.nodes)
unfolding successors lookup waiting contains edges_to keys
chain_counted x = ground (
  arith,
  eq_iff "b" x,
  eq_iff "c" x,
  contains-sort_strings ("b" ∷ []) x,
  contains-sort_strings ("c" ∷ []) x,
  contains-sort_strings [] x,
)

chain_IsFaithful : IsFaithful chain
chain_IsFaithful = record {
  unique_nodes = chain_unique;
  sets = chain_sets;
  ends = chain_ends;
  counted = chain_counted;
}

topological_sort-IsTopological_example :
    ((order : List String) × (topological_sort chain ≡ some order) × IsTopological chain order)
    ⊎ ((topological_sort chain ≡ none) × ((order : List String) → ¬ IsTopological chain order))
topological_sort-IsTopological_example = topological_sort-IsTopological chain chain_IsFaithful

abbrev recomputed : List String
recomputed = "b" ∷ "c" ∷ []

plan-chain : plan chain ("a" ∷ []) ≡ some recomputed
unfolding plan topological_sort kahn_order kahn sort_strings sources in_degrees count_edges insert
    zeros ◌+ℤ◌ lookup sink relax successors ◌-ℤ◌ push_sorted count select roots expand dirty_set
    transitive_dependents dfs dfs_from each other_than contains has_node str_lt
plan-chain = refl

plan-IsDirty_example :
    ((x : String) → (contains recomputed x ≡ true) ↔ IsDirty chain ("a" ∷ []) x)
    × ((x : String) → occurs x recomputed ≤ 1)
    × InOrder chain recomputed [] recomputed
plan-IsDirty_example = plan-IsDirty chain ("a" ∷ []) recomputed chain_IsFaithful plan-chain
