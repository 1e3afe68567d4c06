-- ===== src/Parametric/Sound.antt =====
-- Graphs of dependencies whose maps agree and that have no cycle.
use stair_platform.Prelude.{
  String, ◌≡◌, refl, sym, ap, ◌∙◌, inl, inr, true, false, some, List, [], ◌∷◌, arith, str_eq,
  eq_iff, Option-cases, lookup, insert, lookup-insert, contains-sort_strings, is_some,
}
use stair_platform.Graph.{
  Graph, Node, Edge, has_node, successors, keys, mark_clean, remove_edge, state_clean,
}
use stair_platform.Graph.Keys.{is_plain}
use stair_platform.Graph.Building.{added, linked}
use stair_platform.Graph.Topology.{has_cycle}
use stair_platform.Graph.Topology.Degrees.{insert-HasUniqueKeys}
use stair_platform.Graph.Topology.Links.{keys-insert}
use stair_platform.Graph.Topology.Waiting.{waiting}
use stair_platform.Graph.Topology.Built.{after, contains-linked}
use stair_platform.Graph.Plan.{mark_all}
use stair_platform.Graph.Removal.Keyed.{Keyed, added-Keyed, linked-Keyed}
use stair_platform.Graph.Removal.Edges.{remove_edge_lem}
use stair_platform.Parametric.{}
use stair_platform.Parametric.Acyclic.{
  Topological, acyclic→Topological, Topological→acyclic, Topological-within, Topological-added,
}

module _ {P W : Type 0} where
  has_node-mark_clean :
      (id : String) (g : Graph P W) (a : String) → has_node a (mark_clean id g) ≡ has_node a g
  unfolding mark_clean has_node
  has_node-mark_clean id g a = elim (Option-cases (lookup id g.nodes)) [
    | inl e ↦ rw (e, mark_clean) refl
    | inr (n, e) ↦
        rw (e, mark_clean)
          (ground
            (arith, e, lookup-insert id a (record n { state = state_clean }) g.nodes, eq_iff id a))
  ]

  marked_keys :
      (id : String) (n : Node P) (g : Graph P W)
      → lookup id g.nodes ≡ some n
      → keys (insert id (record n { state = state_clean }) g.nodes) ≡ keys g.nodes
  marked_keys id n g e = keys-insert id (record n { state = state_clean }) g.nodes ∙ rw e refl

  mark_clean-Keyed : (id : String) (g : Graph P W) → Keyed g → Keyed (mark_clean id g)
  unfolding mark_clean has_node
  mark_clean-Keyed id g k = elim (Option-cases (lookup id g.nodes)) [
    | inl e ↦ rw (e, mark_clean) k
    | inr (n, e) ↦
        let same : (a : String)
            → is_some (lookup a (insert id (record n { state = state_clean }) g.nodes))
              ≡ is_some (lookup a g.nodes) =
          λ a. ground (
            arith,
            e,
            lookup-insert id a (record n { state = state_clean }) g.nodes,
            eq_iff id a,
          ) in
        rw (e, mark_clean)
          (record {
            faithful = record {
              inv = record {
                has_outgoing = λ a. k.faithful.inv.has_outgoing a ∙ sym (same a);
                has_incoming = λ a. k.faithful.inv.has_incoming a ∙ sym (same a);
                ends = λ a b h. same b ∙ k.faithful.inv.ends a b h;
              };
              unique_nodes =
                  insert-HasUniqueKeys id (record n { state = state_clean }) g.nodes
                    k.faithful.unique_nodes;
              sets = k.faithful.sets;
              counted = λ x.
                  k.faithful.counted x ∙ ap (waiting (after g) [] x) (sym (marked_keys id n g e));
            };
            unique_edges = k.unique_edges;
            plain = λ a h. k.plain a (sym (same a) ∙ h);
            mirrored = k.mirrored;
            recorded = k.recorded;
            canonical = k.canonical;
          })
  ]

  mark_clean-successors :
      (id : String) (g : Graph P W) (a : String) → successors a (mark_clean id g) ≡ successors a g
  unfolding mark_clean successors
  mark_clean-successors id g a = elim (Option-cases (lookup id g.nodes)) [
    | inl e ↦ rw (e, mark_clean) refl
    | inr (n, e) ↦ rw (e, mark_clean) refl
  ]

  -- A sound graph of dependencies.
  pub record Sound (g : Graph P W) : Type 0 where
    pub keyed : Keyed g
    pub acyclic : has_cycle g ≡ false

  Sound-Topological : (g : Graph P W) → Keyed g → Topological g → Sound g
  Sound-Topological g k t = record { keyed = k; acyclic = Topological→acyclic g k t }

  order_of : (g : Graph P W) → Sound g → Topological g
  order_of g s = acyclic→Topological g s.keyed s.acyclic

  mark_clean-Sound : (id : String) (g : Graph P W) → Sound g → Sound (mark_clean id g)
  mark_clean-Sound id g s = Sound-Topological (mark_clean id g) (mark_clean-Keyed id g s.keyed) (
      Topological-within g (mark_clean id g)
        (λ a x n l. (sym (has_node-mark_clean id g a) ∙ n, rw mark_clean-successors at l))
        (has_node-mark_clean id g) (order_of g s))

  pub mark_all-Sound :
      (ids : List String) (g : Graph P W)
      → Sound g
      → Sound (mark_all ids g) × ((a : String) → has_node a (mark_all ids g) ≡ has_node a g)
  unfolding mark_all
  mark_all-Sound [] g s = (s, λ a. refl)
  mark_all-Sound (id ∷ ids) g s =
      let (s', same) = mark_all-Sound ids (mark_clean id g) (mark_clean-Sound id g s) in
      (s', λ a. same a ∙ has_node-mark_clean id g a)

  pub added-Sound :
      (n : Node P) (g : Graph P W) → is_plain n.id ≡ true → Sound g → Sound (added n g)
  added-Sound n g p s =
      Sound-Topological (added n g) (added-Keyed n g p s.keyed)
        (Topological-added n g s.keyed (order_of g s))

  -- An edge that closes a cycle is taken out again.
  pub taken_back-Sound :
      (e : Edge W) (g : Graph P W)
      → str_eq e.id "" ≡ true
      → has_node e.from g ≡ true
      → has_node e.to g ≡ true
      → Sound g
      → Sound (remove_edge e.from e.to (linked e g)).0
        × ((a : String) → has_node a (remove_edge e.from e.to (linked e g)).0 ≡ has_node a g)
  unfolding successors has_node
  taken_back-Sound e g blank from to s =
      let g' = linked e g in
      let (k, links, nodes, found) =
        remove_edge_lem e.from e.to g' (linked-Keyed e g blank from to s.keyed)
          (s.keyed.plain e.from from) in
      let h = (remove_edge e.from e.to g').0 in
      (
        Sound-Topological h k (
            Topological-within g h
              (λ a x n l. (
                sym (nodes a) ∙ n,
                contains-sort_strings (after g a) x
                    ∙ ground (
                      arith,
                      links a x,
                      contains-linked e g x a,
                      sym (contains-sort_strings (after h a) x) ∙ l,
                    ),
              ))
              nodes (order_of g s)),
        nodes,
      )
