-- ===== src/Graph/Snapshot/Restored.antt =====
-- A graph that is restored from its snapshot.
use stair_platform.Prelude.{
  String, ◌≡◌, refl, sym, ap, ◌∙◌, inl, inr, true, false, some, List, [], arith, Bool-cases, lookup,
  contains, contains-sort_strings, sort_strings, is_some, All_map,
}
use stair_platform.Graph.{
  Graph, Edge, Node, ok, new, has_node, node, edge, successors, predecessors, gather, keys,
  or_empty, edge_key, nodes_sorted,
}
use stair_platform.Graph.Keys.{is_plain}
use stair_platform.Graph.Topology.Built.{after}
use stair_platform.Graph.Removal.Keyed.{ahead, Canonical, Keyed, new-Keyed}
use stair_platform.Graph.Removal.Updates.{Update, apply_all, all_simple, apply_all-Keyed}
use stair_platform.Graph.Snapshot.{snapshot, restore, put_nodes, put_edges, put_empty}
use stair_platform.Graph.Snapshot.Owned.{IsOwn, lookup-All, ok_inj, apply_all-Own, new-Own}
use stair_platform.Graph.Snapshot.Filled.{
  contains-keys, lookup-put_nodes, lookup-put_empty, lookup-put_edges, joins, link_forward_lem,
  link_backward_lem, All-gather, Canonic, joins-gather, joins-not_plain,
}

module _ {P W : Type 0} where
  Canonic-edges : (g : Graph P W) → Keyed g → Canonic g.edges
  Canonic-edges g k j e h = lookup-All Canonical g.edges j e k.canonical h

  ends_are_nodes :
      (g : Graph P W) (j : String) (e : Edge W)
      → Keyed g
      → lookup j g.edges ≡ some e
      → (has_node e.from g ≡ true) × (has_node e.to g ≡ true)
  unfolding contains
  ends_are_nodes g j e k h =
      let (i, p) = Canonic-edges g k j e h in
      let linked : contains (after g e.from) e.to ≡ true =
        sym (k.recorded e.from e.to p) ∙ ap is_some (rw i at h) in
      (
        ground (arith, linked, k.faithful.inv.has_outgoing e.from),
        k.faithful.inv.ends e.from e.to linked,
      )

  -- The two lists of the snapshot.
  abbrev all_nodes : Graph P W → List (Node P)
  all_nodes g = gather (sort_strings (keys g.nodes)) g.nodes

  abbrev all_edges : Graph P W → List (Edge W)
  all_edges g = gather (sort_strings (keys g.edges)) g.edges

  is_some-put_empty :
      (g : Graph P W) (a : String)
      → IsOwn g
      → is_some (lookup a (put_empty (all_nodes g) [])) ≡ has_node a g
  unfolding has_node lookup
  is_some-put_empty g a o = ground (
    arith,
    lookup-put_empty (sort_strings (keys g.nodes)) g.nodes [] a o.nodes,
    contains-sort_strings (keys g.nodes) a,
    contains-keys g.nodes a,
  )

  or_empty-put_empty :
      (g : Graph P W) (a b : String)
      → IsOwn g
      → contains (or_empty (lookup a (put_empty (all_nodes g) []))) b ≡ false
  unfolding lookup contains
  or_empty-put_empty g a b o =
      ground (arith, lookup-put_empty (sort_strings (keys g.nodes)) g.nodes [] a o.nodes)

  joins-after :
      (g : Graph P W) (a b : String) → Keyed g → joins (all_edges g) a b ≡ contains (after g a) b
  unfolding contains
  joins-after g a b k = elim (Bool-cases (is_plain a)) [
    | inl p ↦
        joins-gather (sort_strings (keys g.edges)) g.edges a b (Canonic-edges g k) p
        ∙ ground (
          arith,
          contains-sort_strings (keys g.edges) (edge_key a b),
          contains-keys g.edges (edge_key a b),
          k.recorded a b p,
        )
    | inr p ↦
        joins-not_plain (sort_strings (keys g.edges)) g.edges a b (Canonic-edges g k) p
        ∙ ground (arith, p, k.plain a, k.faithful.inv.has_outgoing a)
  ]

  -- The maps of a restored graph.
  pub record SameMaps (g g' : Graph P W) : Type 0 where
    pub revision : g'.revision ≡ g.revision
    pub nodes : (id : String) → lookup id g'.nodes ≡ lookup id g.nodes
    pub edges : (id : String) → lookup id g'.edges ≡ lookup id g.edges
    pub outgoing : (a b : String) → contains (after g' a) b ≡ contains (after g a) b
    pub incoming : (a b : String) → contains (ahead g' b) a ≡ contains (ahead g b) a

  restore-Keyed :
      (g : Graph P W)
      → Keyed g
      → IsOwn g
      → (g' : Graph P W) × (restore (snapshot g) ≡ some g') × SameMaps g g'
  unfolding restore snapshot nodes_sorted lookup
  restore-Keyed g k o =
      let ns = all_nodes g in
      let es = all_edges g in
      let ends =
        All-gather (λ (e : Edge W). (has_node e.from g ≡ true) × (has_node e.to g ≡ true))
          (sort_strings (keys g.edges)) g.edges (λ j e h. ends_are_nodes g j e k h) in
      let (out, forward, outs) =
        link_forward_lem es (put_empty ns [])
          (All_map (λ (e : Edge W) p. is_some-put_empty g e.from o ∙ p.0) es ends) in
      let (inc, backward, ins) =
        link_backward_lem es (put_empty ns [])
          (All_map (λ (e : Edge W) p. is_some-put_empty g e.to o ∙ p.1) es ends) in
      (
        record {
          nodes = put_nodes ns [];
          edges = put_edges es [];
          outgoing = out;
          incoming = inc;
          revision = g.revision;
        },
        rw (restore, snapshot, forward, backward) refl,
        record {
          revision = refl;
          nodes = λ id. ground (
            arith,
            lookup-put_nodes (sort_strings (keys g.nodes)) g.nodes [] id o.nodes,
            contains-sort_strings (keys g.nodes) id,
            contains-keys g.nodes id,
          );
          edges = λ id. ground (
            arith,
            lookup-put_edges (sort_strings (keys g.edges)) g.edges [] id o.edges,
            contains-sort_strings (keys g.edges) id,
            contains-keys g.edges id,
          );
          outgoing =
              λ a b. ground (arith, outs a b, or_empty-put_empty g a b o, joins-after g a b k);
          incoming = λ a b.
              ground
                (arith, ins a b, or_empty-put_empty g b a o, joins-after g a b k, k.mirrored a b);
        },
      )

  -- A graph that any sequence of updates builds, where edges have the default id and no id of a node
  -- or of the start of a removed edge has a dash, is restored from its snapshot without a panic: with
  -- the same revision, the same node and edge under each id, and the same successors and predecessors
  -- of each id.
  pub restore-snapshot :
      (us : List (Update P W)) (g : Graph P W)
      → all_simple us ≡ true
      → apply_all us new ≡ ok g
      → (g' : Graph P W) × (restore (snapshot g) ≡ some g')
        × (g'.revision ≡ g.revision)
        × ((id : String) → node id g' ≡ node id g)
        × ((id : String) → edge id g' ≡ edge id g)
        × ((a b : String) → contains (successors a g') b ≡ contains (successors a g) b)
        × ((a b : String) → contains (predecessors b g') a ≡ contains (predecessors b g) a)
  unfolding successors predecessors node edge
  restore-snapshot us g s built =
      let (built_graph, e, k) = apply_all-Keyed us new s new-Keyed in
      let same : built_graph ≡ g = ok_inj (sym e ∙ built) in
      let (g', restored, m) =
        restore-Keyed g (rw same at k) (apply_all-Own us new g s new-Own new-Keyed built) in
      (
        g',
        restored,
        m.revision,
        m.nodes,
        m.edges,
        λ a b.
            contains-sort_strings (after g' a) b
            ∙ m.outgoing a b
            ∙ sym (contains-sort_strings (after g a) b),
        λ a b.
            contains-sort_strings (ahead g' b) a
            ∙ m.incoming a b
            ∙ sym (contains-sort_strings (ahead g b) a),
      )
