-- ===== src/Graph/Snapshot.antt =====
-- internal/engine/graph/snapshot.go: immutable copies of the graph.
pub mod Filled
pub mod Owned
pub mod Restored
use stair_platform.Prelude.{ℕ, String, Option, none, some, List, [], ◌∷◌, insert, sort_strings}
use stair_platform.Graph.{Node, Edge, Graph, Adjacency, nodes_sorted, gather, keys, link}

pub record Snapshot (P W : Type 0) : Type 0 where
  pub revision : ℕ
  pub nodes : List (Node P)
  pub edges : List (Edge W)

unfoldable pub snapshot : {P W : Type 0} → Graph P W → Snapshot P W
snapshot g = record {
  revision = g.revision;
  nodes = nodes_sorted g;
  edges = gather (sort_strings (keys g.edges)) g.edges;
}

-- The loop over `s.Nodes`.
unfoldable pub put_nodes :
    {P : Type 0} → List (Node P) → List (String × Node P) → List (String × Node P)
put_nodes [] m = m
put_nodes (n ∷ ns) m = put_nodes ns (insert n.id n m)

unfoldable pub put_empty : {P : Type 0} → List (Node P) → Adjacency → Adjacency
put_empty [] m = m
put_empty (n ∷ ns) m = put_empty ns (insert n.id [] m)

unfoldable pub put_edges :
    {W : Type 0} → List (Edge W) → List (String × Edge W) → List (String × Edge W)
put_edges [] m = m
put_edges (e ∷ es) m = put_edges es (insert e.id e m)

unfoldable pub link_forward : {W : Type 0} → List (Edge W) → Adjacency → Option Adjacency
link_forward [] m = some m
link_forward (e ∷ es) m = elim (link e.from e.to m) [ none ↦ none | some m' ↦ link_forward es m' ]

unfoldable pub link_backward : {W : Type 0} → List (Edge W) → Adjacency → Option Adjacency
link_backward [] m = some m
link_backward (e ∷ es) m = elim (link e.to e.from m) [ none ↦ none | some m' ↦ link_backward es m' ]

-- `none` is the panic of a write to a missing inner map: an edge whose end is no node.
unfoldable pub restore : {P W : Type 0} → Snapshot P W → Option (Graph P W)
restore s = elim (link_forward s.edges (put_empty s.nodes [])) [
  | none ↦ none
  | some out ↦ elim (link_backward s.edges (put_empty s.nodes [])) [
    | none ↦ none
    | some inc ↦ some (record {
      nodes = put_nodes s.nodes [];
      edges = put_edges s.edges [];
      outgoing = out;
      incoming = inc;
      revision = s.revision;
    })
  ]
]
