-- ===== src/Graph/Plan.antt =====
-- internal/engine/graph/scheduler.go: the partial recomputation of the dependents of a change.
pub mod Dirty
pub mod Dependents
use stair_platform.Prelude.{
  String, Bool, true, false, not, ◌&&◌, Option, none, some, List, [], ◌∷◌, ◌++◌, if◌then◌else◌,
  contains,
}
use stair_platform.Graph.{Graph, has_node, mark_clean}
use stair_platform.Graph.Traversal.{transitive_dependents}
use stair_platform.Graph.Topology.{topological_sort}

module _ {P W : Type 0} where
  -- `for _, id := range changed { if s.graph.HasNode(id) { dirty[id] = true } }`
  unfoldable pub roots : Graph P W → List String → List String
  roots g [] = []
  roots g (id ∷ ids) = let rest = roots g ids in if has_node id g then id ∷ rest else rest

  -- The transitive dependents of every root.
  unfoldable pub expand : Graph P W → List String → List String
  expand g [] = []
  expand g (id ∷ ids) = transitive_dependents id g ++ expand g ids

  unfoldable pub dirty_set : Graph P W → List String → List String
  dirty_set g changed = roots g changed ++ expand g (roots g changed)

-- `if dirty[id] && !contains(changed, id) { plan = append(plan, id) }`
unfoldable pub select : List String → List String → List String → List String
select dirty changed [] = []
select dirty changed (id ∷ order) =
    let rest = select dirty changed order in
    if contains dirty id && not (contains changed id) then id ∷ rest else rest

-- What `Execute` leaves: the graph, the ids that `recompute` was called on in order, and
-- whether it failed.
pub record Run (P W : Type 0) : Type 0 where
  pub graph : Graph P W
  pub computed : List String
  pub failed : Bool

module _ {P W : Type 0} where
  unfoldable pub plan : Graph P W → List String → Option (List String)
  plan g changed = elim (topological_sort g) [
    | none ↦ none
    | some order ↦ some (select (dirty_set g changed) changed order)
  ]

  -- `for _, id := range plan`; `recompute id` tells whether the call fails.
  unfoldable pub run_plan : (String → Bool) → List String → Graph P W → List String → Run P W
  run_plan recompute [] g log = record { graph = g; computed = log; failed = false }
  run_plan recompute (id ∷ ids) g log = elim (recompute id) [
    | true ↦ record { graph = g; computed = log ++ id ∷ []; failed = true }
    | false ↦ run_plan recompute ids (mark_clean id g) (log ++ id ∷ [])
  ]

  unfoldable pub mark_all : List String → Graph P W → Graph P W
  mark_all [] g = g
  mark_all (id ∷ ids) g = mark_all ids (mark_clean id g)

  unfoldable pub execute : Graph P W → List String → (String → Bool) → Run P W
  execute g changed recompute = elim (plan g changed) [
    | none ↦ record { graph = g; computed = []; failed = true }
    | some ids ↦
        let r = run_plan recompute ids g [] in
        if r.failed then r else record r { graph = mark_all changed r.graph }
  ]
