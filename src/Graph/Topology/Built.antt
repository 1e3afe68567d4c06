-- ===== src/Graph/Topology/Built.antt =====
-- The maps of the graphs that `AddNode` and `AddEdge` build, where each edge is new.
use stair_platform.Prelude.{
  ◌+◌, ◌≤◌, String, ◌≡◌, refl, sym, ap, ◌∙◌, ◌⊎◌, inl, inr, Bool, true, false, not, ◌&&◌, ◌||◌,
  none, some, List, [], ◌∷◌, arith, str_eq, eq_iff, if◌then◌else◌, Bool-cases, lookup,
  lookup-insert, contains, add, contains-add, contains-sort_strings, occurs, occurs-sort_strings,
  occurs-add, is_some,
}
use stair_platform.Graph.{
  Graph, Edge, Node, ok, error, panic, or_empty, has_node, successors, keys, with_id, new, add_node,
  add_edge, u64, state_dirty,
}
use stair_platform.Graph.Building.{
  Op, op_node, op_edge, step, run, Inv, added, linked, or_empty-with_set, added-Inv, linked-Inv,
  ends-EndsAreNodes, new-Inv, add_edge-linked,
}
use stair_platform.Graph.Topology.{topological_sort}
use stair_platform.Graph.Topology.Degrees.{edges_to, HasUniqueKeys, insert-HasUniqueKeys}
use stair_platform.Graph.Topology.Waiting.{waiting}
use stair_platform.Graph.Topology.Rounds.{IsFaithful}
use stair_platform.Graph.Topology.Sorting.{IsTopological, topological_sort-IsTopological}
use stair_platform.Graph.Topology.Links.{
  waiting_ext, waiting-snoc, waiting_linked, keys-insert, edges_to-insert, with_id_to,
}

module _ {P W : Type 0} where
  -- The successors of an id, before they are sorted.
  abbrev pub after : Graph P W → String → List String
  after g a = or_empty (lookup a g.outgoing)

  pub record Faithful (g : Graph P W) : Type 0 where
    pub inv : Inv g
    pub unique_nodes : HasUniqueKeys g.nodes
    pub sets : (a x : String) → occurs x (after g a) ≤ 1
    pub counted : (x : String) → edges_to x g.edges ≡ waiting (after g) [] x (keys g.nodes)

  no_set :
      (k x : String) (g : Graph P W)
      → Inv g
      → is_some (lookup k g.nodes) ≡ false
      → contains (after g k) x ≡ false
  unfolding has_node contains
  no_set k x g i h = ground (arith, i.has_outgoing k)

  waiting-added :
      (n : Node P) (g : Graph P W) (x : String)
      → Inv g
      → waiting (after (added n g)) [] x (keys (added n g).nodes)
        ≡ waiting (after g) [] x (keys g.nodes)
  waiting-added n g x i =
      let node : Node P = record n { version = u64 (n.version + 1); state = state_dirty } in
      waiting_ext (after (added n g)) (after g) x (keys (added n g).nodes)
        (λ a. ap (λ s. contains s x) (or_empty-with_set n.id g.outgoing a))
      ∙ elim (Bool-cases (is_some (lookup n.id g.nodes))) [
        | inl old ↦ ap (waiting (after g) [] x) (keys-insert n.id node g.nodes ∙ rw old refl)
        | inr fresh ↦
            ap (waiting (after g) [] x) (keys-insert n.id node g.nodes ∙ rw fresh refl)
            ∙ waiting-snoc (after g) x n.id (keys g.nodes)
            ∙ rw (no_set n.id x g i fresh) (omega arith)
      ]

  pub after-linked :
      (e : Edge W) (g : Graph P W) (a : String)
      → after (linked e g) a ≡ (if str_eq e.from a then add e.to (after g e.from) else after g a)
  after-linked e g a =
      ground
        (arith, lookup-insert e.from a (add e.to (or_empty (lookup e.from g.outgoing))) g.outgoing)

  pub contains-linked :
      (e : Edge W) (g : Graph P W) (x a : String)
      → contains (after (linked e g) a) x
        ≡ ((str_eq e.from a && str_eq e.to x) || contains (after g a) x)
  contains-linked e g x a =
      ap (λ s. contains s x) (after-linked e g a) ∙ elim (Bool-cases (str_eq e.from a)) [
        | inl same ↦
            let here : e.from ≡ a = ground (arith, same, eq_iff e.from a) in
            rw (same, here) (ground (arith, contains-add e.to x (after g a)))
        | inr other ↦ rw other refl
      ]

  pub one_node :
      (g : Graph P W) (a : String) → Faithful g → has_node a g ≡ true → occurs a (keys g.nodes) ≡ 1
  unfolding has_node
  one_node g a f h = ground (arith, f.unique_nodes a)

  pub added-Faithful : (n : Node P) (g : Graph P W) → Faithful g → Faithful (added n g)
  added-Faithful n g f = record {
    inv = added-Inv n g f.inv;
    unique_nodes =
        insert-HasUniqueKeys n.id (record n { version = u64 (n.version + 1); state = state_dirty })
          g.nodes f.unique_nodes;
    sets = λ a x. rw or_empty-with_set (f.sets a x);
    counted = λ x. f.counted x ∙ sym (waiting-added n g x f.inv);
  }

  pub linked-Faithful :
      (e : Edge W) (g : Graph P W)
      → Faithful g
      → has_node e.from g ≡ true
      → has_node e.to g ≡ true
      → contains (after g e.from) e.to ≡ false
      → is_some (lookup (with_id e).id g.edges) ≡ false
      → Faithful (linked e g)
  linked-Faithful e g f from to new_pair new_id = record {
    inv = linked-Inv e g f.inv from to;
    unique_nodes = f.unique_nodes;
    sets = λ a x. elim (Bool-cases (str_eq e.from a)) [
      | inl same ↦ rw (after-linked, same) (occurs-add x e.to (after g e.from) (f.sets e.from x))
      | inr other ↦ rw (after-linked, other) (f.sets a x)
    ];
    counted = λ x. ground (
      arith,
      edges_to-insert x (with_id e).id (with_id e) g.edges new_id,
      with_id_to e,
      f.counted x,
      waiting_linked (after g) (after (linked e g)) e.from e.to x (keys g.nodes) new_pair
          (contains-linked e g x),
      one_node g e.from f from,
    );
  }

  pub Faithful-IsFaithful : (g : Graph P W) → Faithful g → IsFaithful g
  unfolding successors
  Faithful-IsFaithful g f = record {
    unique_nodes = f.unique_nodes;
    sets = λ a x. rw occurs-sort_strings (f.sets a x);
    ends = ends-EndsAreNodes g f.inv;
    counted = λ x.
        f.counted x
        ∙ waiting_ext (after g) (λ a. successors a g) x (keys g.nodes)
            (λ a. sym (contains-sort_strings (after g a) x));
  }

  pub new-Faithful : Faithful (new {P = P} {W = W})
  unfolding new lookup occurs keys edges_to waiting
  new-Faithful = record {
    inv = new-Inv;
    unique_nodes = λ x. refl;
    sets = λ a x. omega arith;
    counted = λ x. refl;
  }

  -- Whether an edge is refused, or new by its id and between nodes that have no edge yet.
  unfoldable pub is_new : Op P W → Graph P W → Bool
  is_new (op_node n) g = true
  is_new (op_edge e) g =
      not (has_node e.from g && has_node e.to g)
      || not (contains (successors e.from g) e.to || is_some (lookup (with_id e).id g.edges))

  -- The same of each edge in turn.
  unfoldable pub all_new : List (Op P W) → Graph P W → Bool
  all_new [] g = true
  all_new (op ∷ ops) g =
      is_new op g && elim (step op g) [ ok g' ↦ all_new ops g' | error ↦ false | panic ↦ false ]

  step-Faithful :
      (op : Op P W) (g : Graph P W)
      → Faithful g
      → is_new op g ≡ true
      → (g' : Graph P W) × (step op g ≡ ok g') × Faithful g'
  unfolding step add_edge add_node is_new successors
  step-Faithful (op_node n) g f fresh = elim (Bool-cases (str_eq n.id "")) [
    | inl e ↦ (g, rw (e, step, add_node) refl, f)
    | inr e ↦ (added n g, rw (e, step, add_node) refl, added-Faithful n g f)
  ]
  step-Faithful (op_edge e) g f fresh = elim (Bool-cases (has_node e.from g && has_node e.to g)) [
    | inl h ↦
        let from : has_node e.from g ≡ true = ground arith in
        let to : has_node e.to g ≡ true = ground arith in
        (
          linked e g,
          rw (add_edge-linked e g f.inv from to, step) refl,
          linked-Faithful e g f from to
              (ground (arith, contains-sort_strings (after g e.from) e.to)) (ground arith),
        )
    | inr h ↦ (g, rw (h, step, add_edge) refl, f)
  ]

  run-Faithful :
      (ops : List (Op P W)) (g : Graph P W)
      → Faithful g
      → all_new ops g ≡ true
      → (g' : Graph P W) × (run ops g ≡ ok g') × Faithful g'
  unfolding run all_new
  run-Faithful [] g f fresh = (g, refl, f)
  run-Faithful (op ∷ ops) g f fresh =
      let (g', e, f') = step-Faithful op g f (ground arith) in
      let (g'', e', f'') = run-Faithful ops g' f' (ground arith) in (g'', rw (e, run) e', f'')

  -- Any sequence of `AddNode` and `AddEdge` from an empty graph whose accepted edges are new, by id
  -- and by their ends, runs without a panic, and in its graph the sort either returns a topological
  -- order or reports an error where there is none.
  pub run-IsTopological :
      (ops : List (Op P W))
      → all_new ops new ≡ true
      → (g : Graph P W) × (run ops new ≡ ok g)
        × (((order : List String) × (topological_sort g ≡ some order) × IsTopological g order)
            ⊎ ((topological_sort g ≡ none) × ((order : List String) → ¬ IsTopological g order)))
  run-IsTopological ops fresh =
      let (g, e, f) = run-Faithful ops new new-Faithful fresh in
      (g, e, topological_sort-IsTopological g (Faithful-IsFaithful g f))
