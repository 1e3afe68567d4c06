-- ===== src/Graph/Plan/Dependents.antt =====
-- What `Plan` returns.
use stair_platform.Prelude.{
  ◌≤◌, String, ◌≡◌, refl, ◌↔◌, inl, inr, true, false, not, ◌&&◌, some, List, [], ◌∷◌, ◌++◌, arith,
  eq_iff, Bool-cases, Option-cases, contains, occurs, contains-occurs,
}
use mathlib.Core.List.{append-nil}
use stair_platform.Graph.{Graph, has_node, successors}
use stair_platform.Graph.Topology.{topological_sort, has_cycle}
use stair_platform.Graph.Topology.Rounds.{IsFaithful, IsForward}
use stair_platform.Graph.Topology.Sorting.{sorted_order}
use stair_platform.Graph.Plan.{dirty_set, select, plan}
use stair_platform.Graph.Plan.Dirty.{IsDirty, dirty_set-IsDirty, IsDirty-dirty_set, reached_is_node}

contains-select :
    (dirty changed order : List String) (x : String)
    → contains (select dirty changed order) x
      ≡ (contains order x && contains dirty x && not (contains changed x))
unfolding select contains
contains-select dirty changed [] x = refl
contains-select dirty changed (id ∷ order) x =
    ground (arith, contains-select dirty changed order x, eq_iff id x)

occurs-select :
    (dirty changed order : List String) (x : String)
    → occurs x (select dirty changed order) ≤ occurs x order
unfolding select occurs
occurs-select dirty changed [] x = omega arith
occurs-select dirty changed (id ∷ order) x = ground (arith, occurs-select dirty changed order x)

select-snoc :
    (dirty changed xs : List String) (x : String)
    → select dirty changed (xs ++ x ∷ []) ≡ select dirty changed xs ++ select dirty changed (x ∷ [])
unfolding select
select-snoc dirty changed [] x = refl
select-snoc dirty changed (y ∷ xs) x = ground (arith, select-snoc dirty changed xs x)

selected :
    (dirty changed xs : List String) (x : String)
    → (contains dirty x && not (contains changed x)) ≡ true
    → select dirty changed (x ∷ xs) ≡ x ∷ select dirty changed xs
unfolding select
selected dirty changed xs x h = rw (select, h) refl

not_selected :
    (dirty changed xs : List String) (x : String)
    → (contains dirty x && not (contains changed x)) ≡ false
    → select dirty changed (x ∷ xs) ≡ select dirty changed xs
unfolding select
not_selected dirty changed xs x h = rw (select, h) refl

module _ {P W : Type 0} (g : Graph P W) where
  -- Behind `seen`, each id comes after all of the planned ones that it is a successor of.
  unfoldable pub InOrder : List String → List String → List String → Type 0
  InOrder planned seen [] = Unit
  InOrder planned seen (x ∷ xs) =
      ((a : String)
        → contains planned a ≡ true
        → contains (successors a g) x ≡ true
        → contains seen a ≡ true)
      × InOrder planned (seen ++ x ∷ []) xs

  module _ (dirty changed : List String) where
    select-InOrder :
        (planned seen order : List String)
        → ((a : String)
            → contains planned a ≡ true
            → (has_node a g ≡ true) × (contains dirty a ≡ true) × (contains changed a ≡ false))
        → IsForward g seen order
        → InOrder planned (select dirty changed seen) (select dirty changed order)
    unfolding InOrder IsForward select
    select-InOrder planned seen [] keeps f = tt
    select-InOrder planned seen (x ∷ order) keeps f =
        let later = select-InOrder planned (seen ++ x ∷ []) order keeps f.1 in
        let seen_too = select-snoc dirty changed seen x in
        elim (Bool-cases (contains dirty x && not (contains changed x))) [
          | inl chosen ↦ rw (selected dirty changed order x chosen) (
            λ a p e.
                ground
                  (arith, keeps a p, f.0 a (keeps a p).0 e, contains-select dirty changed seen a),
            rw (seen_too, selected dirty changed [] x chosen) at later,
          )
          | inr left_out ↦
              rw (not_selected dirty changed order x left_out)
                (rw (seen_too, not_selected dirty changed [] x left_out, append-nil) at later)
        ]

  planned_from :
      (changed ids : List String)
      → plan g changed ≡ some ids
      → (order : List String) × (topological_sort g ≡ some order)
        × (ids ≡ select (dirty_set g changed) changed order)
  unfolding plan
  planned_from changed ids h = elim (Option-cases (topological_sort g)) [
    | inl error ↦ absurd (ground arith)
    | inr (order, e) ↦ (order, e, ground arith)
  ]

  -- What is planned is a node.
  pub plan-nodes :
      (changed ids : List String) (x : String)
      → IsFaithful g
      → plan g changed ≡ some ids
      → contains ids x ≡ true
      → has_node x g ≡ true
  plan-nodes changed ids x ok h m =
      let (order, e, same) = planned_from changed ids h in
      let t = sorted_order g ok order e in
      let here : contains (select (dirty_set g changed) changed order) x ≡ true = rw same at m in
      ground (
        arith,
        here,
        contains-select (dirty_set g changed) changed order x,
        t.nodes_once x,
        contains-occurs x order,
      )

  -- Without a cycle there is a plan.
  pub plan-acyclic :
      (changed : List String)
      → has_cycle g ≡ false
      → (ids : List String) × (plan g changed ≡ some ids)
  unfolding plan has_cycle
  plan-acyclic changed h = elim (Option-cases (topological_sort g)) [
    | inl error ↦ absurd (ground (arith, error))
    | inr (order, e) ↦ (select (dirty_set g changed) changed order, rw (plan, e) refl)
  ]

  -- In a faithful graph, a plan has exactly the nodes that are reached from a changed node and are
  -- not changed themselves, each of them once, and each behind all planned ones that have an edge
  -- to it.
  pub plan-IsDirty :
      (changed ids : List String)
      → IsFaithful g
      → plan g changed ≡ some ids
      → ((x : String) → (contains ids x ≡ true) ↔ IsDirty g changed x)
        × ((x : String) → occurs x ids ≤ 1)
        × InOrder ids [] ids
  unfolding select
  plan-IsDirty changed ids ok h =
      let (order, e, same) = planned_from changed ids h in
      let t = sorted_order g ok order e in
      let dirty = dirty_set g changed in
      let is_node : (x : String) → contains order x ≡ has_node x g =
        λ x. ground (arith, t.nodes_once x, contains-occurs x order) in
      let planned = contains-select dirty changed order in
      rw same (
        λ x. (
          λ m.
              dirty_set-IsDirty g changed x ok.ends (ground (arith, m, planned x))
                (ground (arith, m, planned x)),
          λ (fresh, (c, m, n, r)). ground (
            arith,
            planned x,
            is_node x,
            fresh,
            IsDirty-dirty_set g changed x ok.ends (fresh, (c, m, n, r)),
            reached_is_node g c x ok.ends n r,
          ),
        ),
        λ x. ground (arith, occurs-select dirty changed order x, t.nodes_once x),
        select-InOrder dirty changed (select dirty changed order) [] order
            (λ a m. ground (arith, m, planned a, is_node a)) t.forward,
      )
