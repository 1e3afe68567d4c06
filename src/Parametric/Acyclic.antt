-- ===== src/Parametric/Acyclic.antt =====
-- Cycles between parameters.
use stair_platform.Prelude.{
  ◌+◌, String, ◌≡◌, refl, ◌∙◌, inl, inr, true, false, ◌||◌, List, [], ◌∷◌, ◌++◌, arith, str_eq,
  eq_iff, Bool-cases, lookup-insert, contains, contains-sort_strings, occurs, occurs-append,
}
use stair_platform.Graph.{Graph, Node, has_node, successors, u64, state_dirty}
use stair_platform.Graph.Building.{added, or_empty-with_set, ends-EndsAreNodes}
use stair_platform.Graph.Topology.{has_cycle}
use stair_platform.Graph.Topology.Rounds.{IsForward, IsForward-append}
use stair_platform.Graph.Topology.Sorting.{IsTopological, topological_sort-IsTopological}
use stair_platform.Graph.Topology.Built.{Faithful-IsFaithful}
use stair_platform.Graph.Removal.Keyed.{Keyed}
use stair_platform.Graph.Removal.Edges.{from_is_node}

module _ {P W : Type 0} where
  abbrev pub Topological : Graph P W → Type 0
  Topological g = (order : List String) × IsTopological g order

  -- A sort that returns means that there is a topological order, and conversely.
  pub acyclic→Topological : (g : Graph P W) → Keyed g → has_cycle g ≡ false → Topological g
  unfolding has_cycle
  acyclic→Topological g k h =
      elim (topological_sort-IsTopological g (Faithful-IsFaithful g k.faithful)) [
        | inl (order, e, t) ↦ (order, t)
        | inr (e, none_there) ↦ absurd (ground (arith, e))
      ]

  pub Topological→acyclic : (g : Graph P W) → Keyed g → Topological g → has_cycle g ≡ false
  unfolding has_cycle
  Topological→acyclic g k (order, t) =
      elim (topological_sort-IsTopological g (Faithful-IsFaithful g k.faithful)) [
        | inl (order', e, t') ↦ rw (has_cycle, e) refl
        | inr (e, none_there) ↦ absurd (none_there order t)
      ]

  -- Every link of one graph is a link of another.
  abbrev LinksWithin : Graph P W → Graph P W → Type 0
  LinksWithin h g =
      (a x : String)
      → has_node a h ≡ true
      → contains (successors a h) x ≡ true
      → (has_node a g ≡ true) × (contains (successors a g) x ≡ true)

  IsForward-within :
      (g h : Graph P W) (seen xs : List String)
      → LinksWithin h g
      → IsForward g seen xs
      → IsForward h seen xs
  unfolding IsForward
  IsForward-within g h seen [] w f = tt
  IsForward-within g h seen (x ∷ xs) w f =
      (λ a n s. f.0 a (w a x n s).0 (w a x n s).1, IsForward-within g h (seen ++ x ∷ []) xs w f.1)

  -- Fewer links between the same nodes have the same topological orders.
  pub Topological-within :
      (g h : Graph P W)
      → LinksWithin h g
      → ((a : String) → has_node a h ≡ has_node a g)
      → Topological g
      → Topological h
  Topological-within g h w same (order, t) = (
    order,
    record {
      nodes_once = λ x. t.nodes_once x ∙ rw (same x) refl;
      forward = IsForward-within g h [] order w t.forward;
    },
  )

  pub has_node-added :
      (n : Node P) (g : Graph P W) (a : String)
      → has_node a (added n g) ≡ (str_eq n.id a || has_node a g)
  unfolding has_node
  has_node-added n g a = ground (
    arith,
    lookup-insert n.id a (record n { version = u64 (n.version + 1); state = state_dirty }) g.nodes,
  )

  successors-added :
      (n : Node P) (g : Graph P W) (a : String) → successors a (added n g) ≡ successors a g
  unfolding successors
  successors-added n g a = rw or_empty-with_set refl

  -- A node that is added goes to the end of an order, unless it is there.
  pub Topological-added :
      (n : Node P) (g : Graph P W) → Keyed g → Topological g → Topological (added n g)
  unfolding occurs successors
  Topological-added n g k (order, t) = elim (Bool-cases (has_node n.id g)) [
    | inl old ↦
        Topological-within g (added n g)
          (λ a x h s.
            (ground (arith, h, has_node-added n g a, old, eq_iff n.id a), rw successors-added at s))
          (λ a. ground (arith, has_node-added n g a, old, eq_iff n.id a)) (order, t)
    | inr fresh ↦
        let ends = ends-EndsAreNodes g k.faithful.inv in
        let successors_of : (a x : String)
            → contains (successors a (added n g)) x ≡ true
            → contains (successors a g) x ≡ true =
          λ a x s. rw successors-added at s in
        let old_source : (a x : String)
            → has_node a (added n g) ≡ true
            → contains (successors a (added n g)) x ≡ true
            → has_node a g ≡ true =
          λ a x h s. from_is_node a x g k (rw contains-sort_strings at (successors_of a x s)) in
        (
          order ++ n.id ∷ [],
          record {
            nodes_once = λ x. ground (
              arith,
              occurs-append x order (n.id ∷ []),
              t.nodes_once x,
              has_node-added n g x,
              fresh,
              eq_iff n.id x,
            );
            forward =
                IsForward-append (added n g) [] order n.id
                  (IsForward-within g (added n g) [] order
                    (λ a x h s. (old_source a x h s, rw successors-added at s)) t.forward)
                  (λ a h s. absurd (ground (arith, fresh, ends a n.id (rw successors-added at s))));
          },
        )
  ]
