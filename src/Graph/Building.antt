-- ===== src/Graph/Building.antt =====
-- Graphs as `AddNode` and `AddEdge` build them.
use stair_platform.Prelude.{
  ◌+◌, String, ◌≡◌, refl, ◌∙◌, ◌≢◌, ◌↔◌, inl, inr, Bool, true, not, ◌&&◌, ◌||◌, none, some, List,
  [], ◌∷◌, arith, str_eq, eq_iff, if◌then◌else◌, Bool-cases, Option-cases, lookup, insert,
  lookup-insert, contains, add, contains-add, contains-sort_strings, is_some,
}
use stair_platform.Graph.{
  with_id, Adjacency, u64, state_dirty, Node, Edge, Graph, Outcome, ok, error, panic, or_empty,
  link, new, add_node, has_node, add_edge, successors,
}
use stair_platform.Graph.Search.{EndsAreNodes, Reach, transitive_dependents-Reach}
use stair_platform.Graph.Traversal.{transitive_dependents}

pub data Op (P W : Type 0) : Type 0 where
  op_node : Node P → Op P W
  op_edge : Edge W → Op P W

-- A map with an empty set at a key that had none.
abbrev pub with_set : String → Bool → Adjacency → Adjacency
with_set id fresh m = if fresh then insert id [] m else m

is_some-with_set :
    (id : String) (fresh : Bool) (m : Adjacency) (a : String)
    → is_some (lookup a (with_set id fresh m)) ≡ ((fresh && str_eq id a) || is_some (lookup a m))
is_some-with_set id fresh m a = ground (arith, lookup-insert id a [] m)

-- An empty set more changes no set.
pub or_empty-with_set :
    (id : String) (m : Adjacency) (a : String)
    → or_empty (lookup a (with_set id (not (is_some (lookup id m))) m)) ≡ or_empty (lookup a m)
or_empty-with_set id m a = ground (arith, lookup-insert id a [] m, eq_iff id a)

-- What a link does to a map that has the key.
link-lookup :
    (a b : String) (m : Adjacency)
    → is_some (lookup a m) ≡ true
    → link a b m ≡ some (insert a (add b (or_empty (lookup a m))) m)
unfolding link
link-lookup a b m h = elim (Option-cases (lookup a m)) [
  | inl e ↦ ground (arith, e)
  | inr (s, e) ↦ rw (e, link) refl
]

is_some-insert :
    (k : String) (v : List String) (m : Adjacency) (a : String)
    → is_some (lookup k m) ≡ true
    → is_some (lookup a (insert k v m)) ≡ is_some (lookup a m)
is_some-insert k v m a h = ground (arith, lookup-insert k a v m, eq_iff k a)

module _ {P W : Type 0} where
  -- Every node, and nothing else, has its two sets of neighbours.
  pub record Inv (g : Graph P W) : Type 0 where
    pub has_outgoing : (a : String) → is_some (lookup a g.outgoing) ≡ has_node a g
    pub has_incoming : (a : String) → is_some (lookup a g.incoming) ≡ has_node a g
    pub ends :
        (a b : String) → contains (or_empty (lookup a g.outgoing)) b ≡ true → has_node b g ≡ true

  -- An empty id is refused, which leaves the graph as it is.
  unfoldable pub step : Op P W → Graph P W → Outcome (Graph P W)
  step (op_node n) g = elim (add_node n g) [ none ↦ ok g | some g' ↦ ok g' ]
  step (op_edge e) g = elim (add_edge e g) [ ok g' ↦ ok g' | error ↦ ok g | panic ↦ panic ]

  unfoldable pub run : List (Op P W) → Graph P W → Outcome (Graph P W)
  run [] g = ok g
  run (op ∷ ops) g = elim (step op g) [ ok g' ↦ run ops g' | error ↦ error | panic ↦ panic ]

  -- The graph that `AddNode` leaves.
  abbrev pub added : Node P → Graph P W → Graph P W
  added n g =
      let fresh = not (is_some (lookup n.id g.outgoing)) in
      record {
        nodes =
            insert n.id (record n { version = u64 (n.version + 1); state = state_dirty }) g.nodes;
        edges = g.edges;
        outgoing = with_set n.id fresh g.outgoing;
        incoming = with_set n.id fresh g.incoming;
        revision = u64 (g.revision + 1);
      }

  has_node-added :
      (n : Node P) (g : Graph P W) (a : String)
      → has_node a (added n g) ≡ (str_eq n.id a || has_node a g)
  unfolding has_node
  has_node-added n g a = ground (
    arith,
    lookup-insert n.id a (record n { version = u64 (n.version + 1); state = state_dirty }) g.nodes,
  )

  pub added-Inv : (n : Node P) (g : Graph P W) → Inv g → Inv (added n g)
  added-Inv n g i = record {
    has_outgoing = λ a. ground (
      arith,
      has_node-added n g a,
      i.has_outgoing a,
      i.has_outgoing n.id,
      eq_iff n.id a,
      is_some-with_set n.id (not (is_some (lookup n.id g.outgoing))) g.outgoing a,
    );
    has_incoming = λ a. ground (
      arith,
      has_node-added n g a,
      i.has_incoming a,
      i.has_incoming n.id,
      i.has_outgoing n.id,
      eq_iff n.id a,
      is_some-with_set n.id (not (is_some (lookup n.id g.outgoing))) g.incoming a,
    );
    ends = λ a b h. rw has_node-added (ground (arith, i.ends a b (rw or_empty-with_set at h)));
  }

  add_node-Inv :
      (n : Node P) (g : Graph P W)
      → Inv g
      → (g' : Graph P W) × (step (op_node n) g ≡ ok g') × Inv g'
  unfolding step add_node
  add_node-Inv n g i = elim (Bool-cases (str_eq n.id "")) [
    | inl e ↦ (g, rw (e, step, add_node) refl, i)
    | inr e ↦ (added n g, rw (e, step, add_node) refl, added-Inv n g i)
  ]

  -- The graph that `AddEdge` leaves.
  abbrev pub linked : Edge W → Graph P W → Graph P W
  linked e g = record {
    nodes = g.nodes;
    edges = insert (with_id e).id (with_id e) g.edges;
    outgoing = insert e.from (add e.to (or_empty (lookup e.from g.outgoing))) g.outgoing;
    incoming = insert e.to (add e.from (or_empty (lookup e.to g.incoming))) g.incoming;
    revision = u64 (g.revision + 1);
  }

  pub add_edge-linked :
      (e : Edge W) (g : Graph P W)
      → Inv g
      → has_node e.from g ≡ true
      → has_node e.to g ≡ true
      → add_edge e g ≡ ok (linked e g)
  unfolding add_edge
  add_edge-linked e g i from to =
      rw
        (
          from,
          to,
          add_edge,
          link-lookup e.from e.to g.outgoing (i.has_outgoing e.from ∙ from),
          link-lookup e.to e.from g.incoming (i.has_incoming e.to ∙ to),
        )
        refl

  pub linked-Inv :
      (e : Edge W) (g : Graph P W)
      → Inv g
      → has_node e.from g ≡ true
      → has_node e.to g ≡ true
      → Inv (linked e g)
  unfolding has_node
  linked-Inv e g i from to = record {
    has_outgoing = λ a.
        is_some-insert e.from (add e.to (or_empty (lookup e.from g.outgoing))) g.outgoing a
          (i.has_outgoing e.from ∙ from)
        ∙ i.has_outgoing a;
    has_incoming = λ a.
        is_some-insert e.to (add e.from (or_empty (lookup e.to g.incoming))) g.incoming a
          (i.has_incoming e.to ∙ to)
        ∙ i.has_incoming a;
    ends = λ a b h. ground (
      arith,
      h,
      to,
      i.ends a b,
      eq_iff e.from a,
      eq_iff e.to b,
      lookup-insert e.from a (add e.to (or_empty (lookup e.from g.outgoing))) g.outgoing,
      contains-add e.to b (or_empty (lookup e.from g.outgoing)),
    );
  }

  pub step-Inv :
      (op : Op P W) (g : Graph P W) → Inv g → (g' : Graph P W) × (step op g ≡ ok g') × Inv g'
  unfolding step add_edge
  step-Inv (op_node n) g i = add_node-Inv n g i
  step-Inv (op_edge e) g i = elim (Bool-cases (has_node e.from g && has_node e.to g)) [
    | inl h ↦
        let from : has_node e.from g ≡ true = ground arith in
        let to : has_node e.to g ≡ true = ground arith in
        (linked e g, rw (add_edge-linked e g i from to, step) refl, linked-Inv e g i from to)
    | inr h ↦ (g, rw (h, step, add_edge) refl, i)
  ]

  run-GraphInv :
      (ops : List (Op P W)) (g : Graph P W)
      → Inv g
      → (g' : Graph P W) × (run ops g ≡ ok g') × Inv g'
  unfolding run
  run-GraphInv [] g i = (g, refl, i)
  run-GraphInv (op ∷ ops) g i =
      let (g', e, i') = step-Inv op g i in
      let (g'', e', i'') = run-GraphInv ops g' i' in (g'', rw (e, run) e', i'')

  pub new-Inv : Inv (new {P = P} {W = W})
  unfolding new has_node lookup contains
  new-Inv = record {
    has_outgoing = λ a. refl;
    has_incoming = λ a. refl;
    ends = λ a b h. ground arith;
  }

  pub ends-EndsAreNodes : (g : Graph P W) → Inv g → EndsAreNodes g
  unfolding successors
  ends-EndsAreNodes g i a b h = i.ends a b (rw contains-sort_strings at h)

  -- Any sequence of `AddNode` and `AddEdge` from an empty graph, refused calls included, runs without
  -- a panic, every edge of its graph leads to a node, and the transitive dependents of an id in it
  -- are the other ids that are reached from it.
  pub run-EndsAreNodes :
      (ops : List (Op P W))
      → (g : Graph P W) × (run ops new ≡ ok g)
        × EndsAreNodes g
        × ((id y : String)
            → (contains (transitive_dependents id g) y ≡ true) ↔ ((y ≢ id) × Reach g id y))
  run-EndsAreNodes ops =
      let (g, e, i) = run-GraphInv ops new new-Inv in
      (g, e, ends-EndsAreNodes g i, transitive_dependents-Reach g (ends-EndsAreNodes g i))
