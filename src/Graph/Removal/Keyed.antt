-- ===== src/Graph/Removal/Keyed.antt =====
-- Graphs whose edges have the default id, `from + "->" + to`, between ids without a dash: the two
-- maps of neighbours and the edges tell the same.
use stair_platform.Prelude.{
  ◌+◌, String, ◌≡◌, refl, sym, ap, ◌∙◌, inl, inr, true, false, not, ◌&&◌, ◌||◌, List, arith, str_eq,
  eq_iff, Bool-cases, lookup, lookup-insert, contains, add, contains-add, occurs-add, occurs,
  is_some, All, All_map,
}
use stair_platform.Graph.{
  Graph, Edge, Node, or_empty, has_node, keys, with_id, new, edge_key, u64, state_dirty,
}
use stair_platform.Graph.Keys.{is_plain, edge_key_ends}
use stair_platform.Graph.Building.{added, linked, with_set, or_empty-with_set, linked-Inv}
use stair_platform.Graph.Topology.Degrees.{HasUniqueKeys, insert-HasUniqueKeys}
use stair_platform.Graph.Topology.Links.{waiting_ext}
use stair_platform.Graph.Topology.Built.{
  after, Faithful, added-Faithful, linked-Faithful, new-Faithful, after-linked, contains-linked,
}
use stair_platform.Graph.Removal.Maps.{EndsAt, insert-All, edges_to-reinsert}

module _ {W : Type 0} where
  -- An entry of the edges stands under the default id.
  abbrev pub Canonical : String × Edge W → Type 0
  Canonical p = (p.0 ≡ edge_key p.1.from p.1.to) × (is_plain p.1.from ≡ true)

  pub Canonical-EndsAt :
      (from to : String) (p : String × Edge W)
      → is_plain from ≡ true
      → Canonical p
      → EndsAt (edge_key from to) from to p
  Canonical-EndsAt from to p q c e = edge_key_ends p.1.from p.1.to from to c.1 q (sym c.0 ∙ e)

  -- An edge with the default id.
  abbrev pub default_edge : Edge W → Edge W
  default_edge e = record e { id = edge_key e.from e.to }

  default_id : (e : Edge W) → str_eq e.id "" ≡ true → with_id e ≡ default_edge e
  unfolding with_id
  default_id e h = rw (h, with_id) refl

-- Equal ends make equal keys.
pub key_eq :
    (a b c d : String)
    → str_eq (edge_key a b) (edge_key c d) ≡ false
    → (str_eq a c && str_eq b d) ≡ false
key_eq a b c d h = elim (Bool-cases (str_eq a c && str_eq b d)) [
  | inl e ↦
      let i : a ≡ c = ground (arith, eq_iff a c) in
      let j : b ≡ d = ground (arith, eq_iff b d) in
      absurd (ground (arith, eq_iff (edge_key a b) (edge_key c d), i, j))
  | inr e ↦ e
]

module _ {P W : Type 0} where
  -- The predecessors of an id, before they are sorted.
  abbrev pub ahead : Graph P W → String → List String
  ahead g b = or_empty (lookup b g.incoming)

  pub record Keyed (g : Graph P W) : Type 0 where
    pub faithful : Faithful g
    pub unique_edges : HasUniqueKeys g.edges
    pub plain : (a : String) → has_node a g ≡ true → is_plain a ≡ true
    pub mirrored : (a b : String) → contains (ahead g b) a ≡ contains (after g a) b
    pub recorded :
        (a b : String)
        → is_plain a ≡ true
        → is_some (lookup (edge_key a b) g.edges) ≡ contains (after g a) b
    pub canonical : All Canonical g.edges

  pub added-Keyed :
      (n : Node P) (g : Graph P W) → is_plain n.id ≡ true → Keyed g → Keyed (added n g)
  unfolding has_node
  added-Keyed n g p k = record {
    faithful = added-Faithful n g k.faithful;
    unique_edges = k.unique_edges;
    plain = λ a h. ground (
      arith,
      h,
      p,
      k.plain a,
      eq_iff n.id a,
      lookup-insert n.id a (record n { version = u64 (n.version + 1); state = state_dirty })
          g.nodes,
    );
    mirrored = λ a b.
        ap (λ t. contains (or_empty (lookup b (with_set n.id (not t) g.incoming))) a)
          (k.faithful.inv.has_outgoing n.id ∙ sym (k.faithful.inv.has_incoming n.id))
        ∙ ap (λ s. contains s a) (or_empty-with_set n.id g.incoming b)
        ∙ k.mirrored a b
        ∙ sym (ap (λ s. contains s b) (or_empty-with_set n.id g.outgoing a));
    recorded = λ a b q.
        k.recorded a b q ∙ sym (ap (λ s. contains s b) (or_empty-with_set n.id g.outgoing a));
    canonical = k.canonical;
  }

  contains-ahead-linked :
      (e : Edge W) (g : Graph P W) (a b : String)
      → contains (ahead (linked e g) b) a
        ≡ ((str_eq e.from a && str_eq e.to b) || contains (ahead g b) a)
  contains-ahead-linked e g a b = ground (
    arith,
    lookup-insert e.to b (add e.from (or_empty (lookup e.to g.incoming))) g.incoming,
    eq_iff e.to b,
    contains-add e.from a (or_empty (lookup e.to g.incoming)),
  )

  -- An edge that is there already.
  relinked-Faithful :
      (e : Edge W) (g : Graph P W)
      → Keyed g
      → has_node e.from g ≡ true
      → has_node e.to g ≡ true
      → with_id e ≡ default_edge e
      → contains (after g e.from) e.to ≡ true
      → Faithful (linked e g)
  relinked-Faithful e g k from to d old =
      let plain = k.plain e.from from in
      record {
        inv = linked-Inv e g k.faithful.inv from to;
        unique_nodes = k.faithful.unique_nodes;
        sets = λ a x. elim (Bool-cases (str_eq e.from a)) [
          | inl same ↦
              rw (after-linked, same)
                (occurs-add x e.to (after g e.from) (k.faithful.sets e.from x))
          | inr other ↦ rw (after-linked, other) (k.faithful.sets a x)
        ];
        counted = λ x.
            rw d (
              edges_to-reinsert x (edge_key e.from e.to) e.from e.to (default_edge e) g.edges
                (All_map (λ p c. Canonical-EndsAt e.from e.to p plain c) g.edges k.canonical) refl
                (k.recorded e.from e.to plain ∙ old))
            ∙ k.faithful.counted x
            ∙ waiting_ext (after g) (after (linked e g)) x (keys g.nodes)
                (λ a. ground (arith, old, contains-linked e g x a, eq_iff e.from a, eq_iff e.to x));
      }

  linked_again-Faithful :
      (e : Edge W) (g : Graph P W)
      → Keyed g
      → has_node e.from g ≡ true
      → has_node e.to g ≡ true
      → with_id e ≡ default_edge e
      → Faithful (linked e g)
  linked_again-Faithful e g k from to d = elim (Bool-cases (contains (after g e.from) e.to)) [
    | inl old ↦ relinked-Faithful e g k from to d old
    | inr fresh ↦
        linked-Faithful e g k.faithful from to fresh
          (rw d (k.recorded e.from e.to (k.plain e.from from) ∙ fresh))
  ]

  pub linked-Keyed :
      (e : Edge W) (g : Graph P W)
      → str_eq e.id "" ≡ true
      → has_node e.from g ≡ true
      → has_node e.to g ≡ true
      → Keyed g
      → Keyed (linked e g)
  unfolding has_node
  linked-Keyed e g blank from to k =
      let d = default_id e blank in
      let p = k.plain e.from from in
      record {
        faithful = linked_again-Faithful e g k from to d;
        unique_edges = insert-HasUniqueKeys (with_id e).id (with_id e) g.edges k.unique_edges;
        plain = k.plain;
        mirrored = λ a b.
            contains-ahead-linked e g a b
            ∙ ground (arith, k.mirrored a b)
            ∙ sym (contains-linked e g b a);
        recorded = λ a b q.
            rw (d, lookup-insert)
              (elim (Bool-cases (str_eq (edge_key e.from e.to) (edge_key a b))) [
                | inl same ↦
                    let (i, j) =
                      edge_key_ends e.from e.to a b p q
                        ((eq_iff (edge_key e.from e.to) (edge_key a b)).0 same) in
                    ground
                      (arith, same, i, j, eq_iff e.from a, eq_iff e.to b, contains-linked e g b a)
                | inr other ↦ ground (
                  arith,
                  other,
                  k.recorded a b q,
                  contains-linked e g b a,
                  eq_iff e.from a,
                  eq_iff e.to b,
                  key_eq e.from e.to a b,
                )
              ]);
        canonical = rw d (
            insert-All Canonical (edge_key e.from e.to) (default_edge e) g.edges k.canonical
              (refl, p));
      }

  pub new-Keyed : Keyed (new {P = P} {W = W})
  unfolding new has_node lookup contains keys occurs
  new-Keyed = record {
    faithful = new-Faithful;
    unique_edges = λ x. refl;
    plain = λ a h. ground arith;
    mirrored = λ a b. refl;
    recorded = λ a b q. refl;
    canonical = tt;
  }
