-- ===== src/Graph/Removal/Nodes.antt =====
-- `RemoveNode` of internal/engine/graph/graph.go.
use stair_platform.Prelude.{
  ◌≤◌, String, ◌≡◌, refl, sym, ◌∙◌, inl, inr, Bool, true, false, not, ◌&&◌, ◌||◌, List, [], ◌∷◌,
  arith, str_eq, eq_iff, Bool-cases, erase, lookup-erase, contains, occurs,
}
use stair_platform.Graph.{
  Graph, has_node, keys, forget, remove_edge, remove_incoming, remove_outgoing, remove_incident,
  remove_node,
}
use stair_platform.Graph.Keys.{is_plain}
use stair_platform.Graph.Building.{Inv}
use stair_platform.Graph.Topology.Waiting.{waiting}
use stair_platform.Graph.Topology.Links.{waiting_ext}
use stair_platform.Graph.Topology.Built.{after}
use stair_platform.Graph.Removal.Maps.{erase-HasUniqueKeys}
use stair_platform.Graph.Removal.Keyed.{ahead, Keyed}
use stair_platform.Graph.Removal.Edges.{from_is_node, remove_edge_lem}

-- A node that leads nowhere counts for nothing.
waiting-erase :
    {V : Type 0} (f : String → List String) (x id : String) (m : List (String × V))
    → contains (f id) x ≡ false
    → waiting f [] x (keys (erase id m)) ≡ waiting f [] x (keys m)
unfolding waiting keys erase
waiting-erase f x id [] h = refl
waiting-erase f x id ((j, v) ∷ m) h = elim (Bool-cases (str_eq j id)) [
  | inl e ↦
      let same : j ≡ id = (eq_iff j id).0 e in
      rw (e, erase) (ground (arith, same, h, waiting-erase f x id m h))
  | inr e ↦ rw (e, erase) (ground (arith, waiting-erase f x id m h))
]

nothing-le : (x : String) → occurs x [] ≤ 1
unfolding occurs
nothing-le x = omega arith

module _ {P W : Type 0} where
  -- A graph in which the links of another are kept, but for some.
  pub record Cut (gone : String → String → Bool) (g g' : Graph P W) : Type 0 where
    pub keyed : Keyed g'
    pub links :
        (a b : String) → contains (after g' a) b ≡ (not (gone a b) && contains (after g a) b)
    pub nodes : (a : String) → has_node a g' ≡ has_node a g

  remove_incoming-Cut :
      (id : String) (froms : List String) (g : Graph P W)
      → Keyed g
      → ((a : String) → contains froms a ≡ true → is_plain a ≡ true)
      → Cut (λ a b. str_eq id b && contains froms a) g (remove_incoming id froms g)
  unfolding remove_incoming contains
  remove_incoming-Cut id [] g k p = record {
    keyed = k;
    links = λ a b. ground arith;
    nodes = λ a. refl;
  }
  remove_incoming-Cut id (from ∷ rest) g k p =
      let (k', links, nodes, found) =
        remove_edge_lem from id g k (p from (ground (arith, eq_iff from from))) in
      let g' = (remove_edge from id g).0 in
      let cut = remove_incoming-Cut id rest g' k' (λ a h. p a (ground (arith, h))) in
      record {
        keyed = cut.keyed;
        links = λ a b. ground (arith, cut.links a b, links a b);
        nodes = λ a. cut.nodes a ∙ nodes a;
      }

  remove_outgoing-Cut :
      (id : String) (tos : List String) (g : Graph P W)
      → Keyed g
      → is_plain id ≡ true
      → Cut (λ a b. str_eq id a && contains tos b) g (remove_outgoing id tos g)
  unfolding remove_outgoing contains
  remove_outgoing-Cut id [] g k p = record {
    keyed = k;
    links = λ a b. ground arith;
    nodes = λ a. refl;
  }
  remove_outgoing-Cut id (to ∷ rest) g k p =
      let (k', links, nodes, found) = remove_edge_lem id to g k p in
      let g' = (remove_edge id to g).0 in
      let cut = remove_outgoing-Cut id rest g' k' p in
      record {
        keyed = cut.keyed;
        links = λ a b. ground (arith, cut.links a b, links a b);
        nodes = λ a. cut.nodes a ∙ nodes a;
      }

  -- The incident edges are gone, and no other.
  remove_incident-Cut :
      (id : String) (g : Graph P W)
      → Keyed g
      → has_node id g ≡ true
      → Cut (λ a b. str_eq id a || str_eq id b) g (remove_incident id g)
  unfolding remove_incident
  remove_incident-Cut id g k node =
      let into = ahead g id in
      let g' = remove_incoming id into g in
      let first =
        remove_incoming-Cut id into g k
          (λ a h. k.plain a (from_is_node a id g k (sym (k.mirrored a id) ∙ h))) in
      let second = remove_outgoing-Cut id (after g' id) g' first.keyed (k.plain id node) in
      record {
        keyed = second.keyed;
        links = λ a b.
            ground
              (arith, second.links a b, first.links a b, k.mirrored a b, eq_iff id a, eq_iff id b);
        nodes = λ a. second.nodes a ∙ first.nodes a;
      }

  -- No link begins or ends at an id.
  abbrev IsApart : String → Graph P W → Type 0
  IsApart id g =
      (a b : String) → (str_eq id a || str_eq id b) ≡ true → contains (after g a) b ≡ false

  after-forget :
      (id : String) (g : Graph P W) (a b : String)
      → IsApart id g
      → contains (after (forget id g) a) b ≡ contains (after g a) b
  unfolding forget contains
  after-forget id g a b apart = elim (Bool-cases (str_eq id a)) [
    | inl e ↦ ground (arith, e, lookup-erase id a g.outgoing, apart a b)
    | inr e ↦ ground (arith, e, lookup-erase id a g.outgoing)
  ]

  ahead-forget :
      (id : String) (g : Graph P W) (a b : String)
      → Keyed g
      → IsApart id g
      → contains (ahead (forget id g) b) a ≡ contains (ahead g b) a
  unfolding forget contains
  ahead-forget id g a b k apart = elim (Bool-cases (str_eq id b)) [
    | inl e ↦ ground (arith, e, lookup-erase id b g.incoming, k.mirrored a b, apart a b)
    | inr e ↦ ground (arith, e, lookup-erase id b g.incoming)
  ]

  has_node-forget :
      (id : String) (g : Graph P W) (a : String)
      → has_node a (forget id g) ≡ (not (str_eq id a) && has_node a g)
  unfolding has_node forget
  has_node-forget id g a = ground (arith, lookup-erase id a g.nodes)

  forget-Inv : (id : String) (g : Graph P W) → Keyed g → IsApart id g → Inv (forget id g)
  unfolding forget
  forget-Inv id g k apart =
      let i = k.faithful.inv in
      record {
        has_outgoing = λ a.
            ground (arith, lookup-erase id a g.outgoing, has_node-forget id g a, i.has_outgoing a);
        has_incoming = λ a.
            ground (arith, lookup-erase id a g.incoming, has_node-forget id g a, i.has_incoming a);
        ends = λ a b h.
            let link : contains (after g a) b ≡ true = sym (after-forget id g a b apart) ∙ h in
            has_node-forget id g b ∙ ground (arith, link, i.ends a b link, apart a b);
      }

  forget-Keyed : (id : String) (g : Graph P W) → Keyed g → IsApart id g → Keyed (forget id g)
  unfolding forget
  forget-Keyed id g k apart = record {
    faithful = record {
      inv = forget-Inv id g k apart;
      unique_nodes = erase-HasUniqueKeys id g.nodes k.faithful.unique_nodes;
      sets = λ a x. elim (Bool-cases (str_eq id a)) [
        | inl e ↦ rw (lookup-erase, e) (nothing-le x)
        | inr e ↦ rw (lookup-erase, e) (k.faithful.sets a x)
      ];
      counted = λ x.
          k.faithful.counted x
          ∙ waiting_ext (after g) (after (forget id g)) x (keys g.nodes)
              (λ a. sym (after-forget id g a x apart))
          ∙ sym (
              waiting-erase (after (forget id g)) x id g.nodes
                (after-forget id g id x apart ∙ apart id x (ground (arith, eq_iff id id))));
    };
    unique_edges = k.unique_edges;
    plain = λ a h. k.plain a (ground (arith, h, has_node-forget id g a));
    mirrored =
        λ a b. ahead-forget id g a b k apart ∙ k.mirrored a b ∙ sym (after-forget id g a b apart);
    recorded = λ a b q. k.recorded a b q ∙ sym (after-forget id g a b apart);
    canonical = k.canonical;
  }

  -- What `RemoveNode` leaves.
  pub record Removed (id : String) (g g' : Graph P W) : Type 0 where
    pub keyed : Keyed g'
    pub links :
        (a b : String)
        → contains (after g' a) b ≡ (not (str_eq id a || str_eq id b) && contains (after g a) b)
    pub nodes : (a : String) → has_node a g' ≡ (not (str_eq id a) && has_node a g)

  pub remove_node-Removed :
      (id : String) (g : Graph P W)
      → Keyed g
      → has_node id g ≡ true
      → Removed id g (remove_node id g).0
  unfolding remove_node
  remove_node-Removed id g k node =
      let g' = remove_incident id g in
      let cut = remove_incident-Cut id g k node in
      let apart : IsApart id g' = λ a b h. cut.links a b ∙ rw h refl in
      rw (node, remove_node)
        (record {
          keyed = forget-Keyed id g' cut.keyed apart;
          links = λ a b. after-forget id g' a b apart ∙ cut.links a b;
          nodes = λ a. has_node-forget id g' a ∙ rw (cut.nodes a) refl;
        })
