-- ===== src/Graph/Removal/Edges.antt =====
-- `RemoveEdge` of internal/engine/graph/graph.go.
use stair_platform.Prelude.{
  ◌+◌, String, ◌≡◌, refl, sym, ◌∙◌, inl, inr, true, false, not, ◌&&◌, none, some, List, [], ◌∷◌,
  arith, str_eq, eq_iff, if◌then◌else◌, Bool-cases, lookup, lookup-erase, contains, contains-remove,
  occurs, is_some, All, All_map,
}
use stair_platform.Graph.{
  Graph, Edge, has_node, keys, edge_key, scan, find_key, drop_edge, remove_edge,
}
use stair_platform.Graph.Keys.{is_plain, edge_key_ends, edge_key-ne-empty}
use stair_platform.Graph.Building.{Inv}
use stair_platform.Graph.Topology.Waiting.{waiting}
use stair_platform.Graph.Topology.Links.{waiting_linked}
use stair_platform.Graph.Topology.Built.{after, Faithful, one_node}
use stair_platform.Graph.Removal.Maps.{
  or_empty-unlink, is_some-unlink, occurs-remove, erase-HasUniqueKeys, erase-All, edges_to-erase,
}
use stair_platform.Graph.Removal.Keyed.{ahead, Canonical, Canonical-EndsAt, Keyed, key_eq}

-- A scan finds no edge whose key is missing.
scan-none :
    {W : Type 0} (from to : String) (es : List (String × Edge W))
    → All Canonical es
    → is_some (lookup (edge_key from to) es) ≡ false
    → scan from to es ≡ none
unfolding scan lookup
scan-none from to [] a h = refl
scan-none from to ((j, e) ∷ es) a h = elim (Bool-cases (str_eq e.from from && str_eq e.to to)) [
  | inl found ↦
      let i : e.from ≡ from = ground (arith, eq_iff e.from from) in
      let k : e.to ≡ to = ground (arith, eq_iff e.to to) in
      let here : j ≡ edge_key from to = a.0.0 ∙ rw (i, k) refl in
      absurd (ground (arith, here, eq_iff j (edge_key from to)))
  | inr other ↦
      rw (other, scan) (scan-none from to es a.1 (ground (arith, eq_iff j (edge_key from to))))
]

module _ {P W : Type 0} where
  -- The key that `RemoveEdge` works with.
  pub find_key_lem :
      (from to : String) (g : Graph P W)
      → Keyed g
      → is_plain from ≡ true
      → find_key from to g ≡ (if contains (after g from) to then some (edge_key from to) else none)
  unfolding find_key
  find_key_lem from to g k p = elim (Bool-cases (contains (after g from) to)) [
    | inl there ↦ rw (there, find_key, k.recorded from to p ∙ there, edge_key-ne-empty from to) refl
    | inr gone ↦
        let missing = k.recorded from to p ∙ gone in
        rw (gone, find_key, missing, scan-none from to g.edges k.canonical missing) refl
  ]

  -- The graph that `RemoveEdge` leaves, where there is the edge.
  abbrev pub dropped : String → String → Graph P W → Graph P W
  dropped from to g = drop_edge (edge_key from to) from to g

  pub contains-dropped :
      (from to : String) (g : Graph P W) (a b : String)
      → contains (after (dropped from to g) a) b
        ≡ (not (str_eq from a && str_eq to b) && contains (after g a) b)
  unfolding drop_edge
  contains-dropped from to g a b = ground (
    arith,
    or_empty-unlink from to a g.outgoing,
    contains-remove to b (after g from),
    eq_iff from a,
  )

  contains-ahead-dropped :
      (from to : String) (g : Graph P W) (a b : String)
      → contains (ahead (dropped from to g) b) a
        ≡ (not (str_eq from a && str_eq to b) && contains (ahead g b) a)
  unfolding drop_edge
  contains-ahead-dropped from to g a b = ground (
    arith,
    or_empty-unlink to from b g.incoming,
    contains-remove from a (ahead g to),
    eq_iff to b,
  )

  dropped-Inv : (from to : String) (g : Graph P W) → Inv g → Inv (dropped from to g)
  unfolding has_node drop_edge
  dropped-Inv from to g i = record {
    has_outgoing = λ a. is_some-unlink from to a g.outgoing ∙ i.has_outgoing a;
    has_incoming = λ a. is_some-unlink to from a g.incoming ∙ i.has_incoming a;
    ends = λ a b h. i.ends a b (ground (arith, h, contains-dropped from to g a b));
  }

  counted_dropped :
      (from to : String) (g : Graph P W) (x : String)
      → Keyed g
      → contains (after g from) to ≡ true
      → waiting (after g) [] x (keys g.nodes)
        ≡ waiting (after (dropped from to g)) [] x (keys g.nodes)
          + (if str_eq to x then occurs from (keys g.nodes) else 0)
  counted_dropped from to g x k there =
      waiting_linked (after (dropped from to g)) (after g) from to x (keys g.nodes)
        (ground (arith, contains-dropped from to g from to, eq_iff from from, eq_iff to to))
        (λ a. ground (arith, there, contains-dropped from to g a x, eq_iff from a, eq_iff to x))

  pub from_is_node :
      (from to : String) (g : Graph P W)
      → Keyed g
      → contains (after g from) to ≡ true
      → has_node from g ≡ true
  unfolding contains
  from_is_node from to g k there = ground (arith, k.faithful.inv.has_outgoing from)

  dropped-Faithful :
      (from to : String) (g : Graph P W)
      → Keyed g
      → contains (after g from) to ≡ true
      → Faithful (dropped from to g)
  unfolding drop_edge
  dropped-Faithful from to g k there =
      let node = from_is_node from to g k there in
      let plain = k.plain from node in
      record {
        inv = dropped-Inv from to g k.faithful.inv;
        unique_nodes = k.faithful.unique_nodes;
        sets = λ a x. ground (
          arith,
          or_empty-unlink from to a g.outgoing,
          k.faithful.sets a x,
          k.faithful.sets from x,
          occurs-remove x to (after g from),
        );
        counted = λ x. ground (
          arith,
          edges_to-erase x (edge_key from to) from to g.edges
              (All_map (λ p c. Canonical-EndsAt from to p plain c) g.edges k.canonical),
          k.faithful.counted x,
          counted_dropped from to g x k there,
          k.unique_edges (edge_key from to),
          k.recorded from to plain ∙ there,
          one_node g from k.faithful node,
        );
      }

  pub dropped-Keyed :
      (from to : String) (g : Graph P W)
      → Keyed g
      → contains (after g from) to ≡ true
      → Keyed (dropped from to g)
  unfolding drop_edge has_node
  dropped-Keyed from to g k there =
      let plain = k.plain from (from_is_node from to g k there) in
      record {
        faithful = dropped-Faithful from to g k there;
        unique_edges = erase-HasUniqueKeys (edge_key from to) g.edges k.unique_edges;
        plain = k.plain;
        mirrored = λ a b.
            contains-ahead-dropped from to g a b
            ∙ ground (arith, k.mirrored a b)
            ∙ sym (contains-dropped from to g a b);
        recorded = λ a b q.
            rw lookup-erase (elim (Bool-cases (str_eq (edge_key from to) (edge_key a b))) [
              | inl same ↦
                  let (i, j) =
                    edge_key_ends from to a b plain q
                      ((eq_iff (edge_key from to) (edge_key a b)).0 same) in
                  ground
                    (arith, same, i, j, eq_iff from a, eq_iff to b, contains-dropped from to g a b)
              | inr other ↦ ground (
                arith,
                other,
                k.recorded a b q,
                contains-dropped from to g a b,
                key_eq from to a b other,
              )
            ]);
        canonical = erase-All Canonical (edge_key from to) g.edges k.canonical;
      }

  -- `RemoveEdge` keeps the agreement of the maps and takes away the edge asked for.
  pub remove_edge_lem :
      (from to : String) (g : Graph P W)
      → Keyed g
      → is_plain from ≡ true
      → Keyed (remove_edge from to g).0
        × ((a b : String)
            → contains (after (remove_edge from to g).0 a) b
              ≡ (not (str_eq from a && str_eq to b) && contains (after g a) b))
        × ((a : String) → has_node a (remove_edge from to g).0 ≡ has_node a g)
        × ((remove_edge from to g).1 ≡ contains (after g from) to)
  unfolding remove_edge has_node drop_edge
  remove_edge_lem from to g k p = elim (Bool-cases (contains (after g from) to)) [
    | inl there ↦
        rw (remove_edge, find_key_lem from to g k p, there)
          (dropped-Keyed from to g k there, contains-dropped from to g, λ a. refl, refl)
    | inr gone ↦
        rw (remove_edge, find_key_lem from to g k p, gone)
          (k, λ a b. ground (arith, gone, eq_iff from a, eq_iff to b), λ a. refl, refl)
  ]
