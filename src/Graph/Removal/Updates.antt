-- ===== src/Graph/Removal/Updates.antt =====
-- Sequences of all updates of a graph, with default ids of edges and no dash in the ids of nodes.
use stair_platform.Prelude.{
  String, ◌≡◌, ◌⊎◌, refl, ◌∙◌, inl, inr, Bool, true, not, ◌&&◌, ◌||◌, none, some, List, [], ◌∷◌,
  arith, str_eq, Bool-cases, contains, contains-sort_strings,
}
use stair_platform.Graph.{
  Graph, Edge, Node, Outcome, ok, error, panic, new, has_node, successors, predecessors, add_node,
  add_edge, remove_edge, remove_node,
}
use stair_platform.Graph.Keys.{is_plain}
use stair_platform.Graph.Building.{added, linked, add_edge-linked, ends-EndsAreNodes}
use stair_platform.Graph.Search.{EndsAreNodes}
use stair_platform.Graph.Topology.{topological_sort}
use stair_platform.Graph.Topology.Sorting.{IsTopological, topological_sort-IsTopological}
use stair_platform.Graph.Topology.Built.{after, Faithful-IsFaithful}
use stair_platform.Graph.Removal.Keyed.{ahead, Keyed, added-Keyed, linked-Keyed, new-Keyed}
use stair_platform.Graph.Removal.Edges.{remove_edge_lem}
use stair_platform.Graph.Removal.Nodes.{remove_node-Removed}

pub data Update (P W : Type 0) : Type 0 where
  put_node : Node P → Update P W
  put_edge : Edge W → Update P W
  cut_edge : String → String → Update P W
  cut_node : String → Update P W

module _ {P W : Type 0} where
  -- A call that is refused leaves the graph as it is.
  unfoldable pub apply : Update P W → Graph P W → Outcome (Graph P W)
  apply (put_node n) g = elim (add_node n g) [ none ↦ ok g | some g' ↦ ok g' ]
  apply (put_edge e) g = elim (add_edge e g) [ ok g' ↦ ok g' | error ↦ ok g | panic ↦ panic ]
  apply (cut_edge from to) g = ok (remove_edge from to g).0
  apply (cut_node id) g = ok (remove_node id g).0

  unfoldable pub apply_all : List (Update P W) → Graph P W → Outcome (Graph P W)
  unfolding apply
  apply_all [] g = ok g
  apply_all (u ∷ us) g = elim (apply u g) [
    | ok g' ↦ apply_all us g'
    | error ↦ error
    | panic ↦ panic
  ]

  -- A node or an end without a dash, an edge with the default id.
  abbrev pub is_simple : Update P W → Bool
  is_simple (put_node n) = is_plain n.id
  is_simple (put_edge e) = str_eq e.id ""
  is_simple (cut_edge from to) = is_plain from
  is_simple (cut_node id) = true

  abbrev pub all_simple : List (Update P W) → Bool
  all_simple [] = true
  all_simple (u ∷ us) = is_simple u && all_simple us

  pub apply-Keyed :
      (u : Update P W) (g : Graph P W)
      → is_simple u ≡ true
      → Keyed g
      → (g' : Graph P W) × (apply u g ≡ ok g') × Keyed g'
  unfolding apply add_node add_edge remove_node
  apply-Keyed (put_node n) g s k = elim (Bool-cases (str_eq n.id "")) [
    | inl e ↦ (g, rw (e, apply, add_node) refl, k)
    | inr e ↦ (added n g, rw (e, apply, add_node) refl, added-Keyed n g s k)
  ]
  apply-Keyed (put_edge e) g s k = elim (Bool-cases (has_node e.from g && has_node e.to g)) [
    | inl h ↦
        let from : has_node e.from g ≡ true = ground arith in
        let to : has_node e.to g ≡ true = ground arith in
        (
          linked e g,
          rw (add_edge-linked e g k.faithful.inv from to, apply) refl,
          linked-Keyed e g s from to k,
        )
    | inr h ↦ (g, rw (h, apply, add_edge) refl, k)
  ]
  apply-Keyed (cut_edge from to) g s k =
      ((remove_edge from to g).0, refl, (remove_edge_lem from to g k s).0)
  apply-Keyed (cut_node id) g s k = elim (Bool-cases (has_node id g)) [
    | inl node ↦ ((remove_node id g).0, refl, (remove_node-Removed id g k node).keyed)
    | inr missing ↦ (g, rw (missing, apply, remove_node) refl, k)
  ]

  pub apply_all-Keyed :
      (us : List (Update P W)) (g : Graph P W)
      → all_simple us ≡ true
      → Keyed g
      → (g' : Graph P W) × (apply_all us g ≡ ok g') × Keyed g'
  unfolding apply_all
  apply_all-Keyed [] g s k = (g, refl, k)
  apply_all-Keyed (u ∷ us) g s k =
      let (g', e, k') = apply-Keyed u g (ground arith) k in
      let (g'', e', k'') = apply_all-Keyed us g' (ground arith) k' in
      (g'', rw (e, apply_all) e', k'')

  -- Any sequence of `AddNode`, `AddEdge`, `RemoveEdge` and `RemoveNode` from an empty graph, refused
  -- calls included, where edges have the default id and no id of a node or of the start of a removed
  -- edge has a dash, runs without a panic; in its graph every edge leads to a node, and the sort
  -- either returns a topological order or reports an error where there is none.
  pub apply_all-IsTopological :
      (us : List (Update P W))
      → all_simple us ≡ true
      → (g : Graph P W) × (apply_all us new ≡ ok g)
        × EndsAreNodes g
        × (((order : List String) × (topological_sort g ≡ some order) × IsTopological g order)
            ⊎ ((topological_sort g ≡ none) × ((order : List String) → ¬ IsTopological g order)))
  apply_all-IsTopological us s =
      let (g, e, k) = apply_all-Keyed us new s new-Keyed in
      (
        g,
        e,
        ends-EndsAreNodes g k.faithful.inv,
        topological_sort-IsTopological g (Faithful-IsFaithful g k.faithful),
      )

  same_graph :
      (us : List (Update P W)) (g g' : Graph P W)
      → apply_all us new ≡ ok g
      → apply_all us new ≡ ok g'
      → g' ≡ g
  same_graph us g g' e e' = cc

  -- In a graph that such a sequence builds, `RemoveNode` of a node takes away that node alone and
  -- exactly the successors and predecessors that are it or are its own.
  pub remove_node-neighbours :
      (us : List (Update P W)) (g : Graph P W) (id : String)
      → all_simple us ≡ true
      → apply_all us new ≡ ok g
      → has_node id g ≡ true
      → ((a : String) → has_node a (remove_node id g).0 ≡ (not (str_eq id a) && has_node a g))
        × ((a b : String)
            → contains (successors a (remove_node id g).0) b
              ≡ (not (str_eq id a || str_eq id b) && contains (successors a g) b))
        × ((a b : String)
            → contains (predecessors b (remove_node id g).0) a
              ≡ (not (str_eq id a || str_eq id b) && contains (predecessors b g) a))
  unfolding successors predecessors
  remove_node-neighbours us g id s built node =
      let (g', e, k') = apply_all-Keyed us new s new-Keyed in
      let k : Keyed g = rw (same_graph us g g' built e) at k' in
      let r = remove_node-Removed id g k node in
      (
        r.nodes,
        λ a b.
            contains-sort_strings (after (remove_node id g).0 a) b
            ∙ r.links a b
            ∙ ground (arith, contains-sort_strings (after g a) b),
        λ a b.
            contains-sort_strings (ahead (remove_node id g).0 b) a
            ∙ r.keyed.mirrored a b
            ∙ r.links a b
            ∙ ground (arith, contains-sort_strings (ahead g b) a, k.mirrored a b),
      )
