-- ===== src/Parametric.antt =====
-- internal/geometry/model.go and param.go: the parameters of a model, with their dependencies in a
-- dependency graph. A value is a `V`. A formula is an `F`, and `eval` is its call, which reads the
-- parameters; none is its error. A pointer to a parameter is the entry of the map.
pub mod Acyclic
pub mod Sound
pub mod Methods
pub mod Rebuilt
mod Examples
use stair_platform.Prelude.{
  String, Bool, true, false, Option, none, some, List, [], ◌∷◌, str_eq, if◌then◌else◌, lookup,
  insert, is_some,
}
use stair_platform.Graph as graphs
use stair_platform.Graph.{
  Graph, Node, Edge, ok, error, panic, add_node, add_edge, remove_edge, mark_clean,
}
use stair_platform.Graph.Topology.{has_cycle}
use stair_platform.Graph.Plan.{plan, mark_all}

pub data ParamState : Type 0 where
  defined calculated inherited locked derived invalid : ParamState

abbrev pub is_locked : ParamState → Bool
is_locked locked = true
is_locked _ = false

pub record Parameter (V F : Type 0) : Type 0 where
  pub id : String
  pub owner : String
  pub type : String
  pub state : ParamState
  pub value : Option V
  pub formula : Option F

-- The payload and the weight are never set.
abbrev pub Dependencies : Type 0
Dependencies = Graph (Unit {0}) (Unit {0})

pub record ParametricModel (V F : Type 0) : Type 0 where
  pub g : Dependencies
  pub params : List (String × Parameter V F)

pub data ModelError : Type 0 where
  id_required owner_required duplicate_parameter unknown_parameter graph_refused : ModelError
  creates_a_cycle parameter_locked cycle_detected formula_failed : ModelError

-- `graph.Node{ID: id, Type: "parameter"}`
abbrev pub parameter_node : String → Node (Unit {0})
parameter_node id = record {
  id = id;
  type = "parameter";
  version = 0;
  state = "";
  payload = tt;
  metadata = [];
}

-- `graph.Edge{From: dep, To: of}`
abbrev pub dependency_edge : String → String → Edge (Unit {0})
dependency_edge dep of = record {
  id = "";
  from = dep;
  to = of;
  type = "";
  weight = tt;
  metadata = [];
}

-- What a method returns: the new model and its error; a panic is none.
abbrev pub Returned : Type 0 → Type 0 → Type 0
Returned V F = Option (ParametricModel V F × Option ModelError)

module _ {V F : Type 0} where
  unfoldable pub new_model : ParametricModel V F
  new_model = record { g = graphs.new; params = [] }

  unfoldable pub new_parameter : String → String → String → V → Parameter V F
  new_parameter id owner typ value = record {
    id = id;
    owner = owner;
    type = typ;
    state = defined;
    value = some value;
    formula = none;
  }

  unfoldable pub new_derived_parameter : String → String → String → F → Parameter V F
  new_derived_parameter id owner typ formula = record {
    id = id;
    owner = owner;
    type = typ;
    state = derived;
    value = none;
    formula = some formula;
  }

  unfoldable pub add_parameter :
      Parameter V F → ParametricModel V F → ParametricModel V F × Option ModelError
  add_parameter p m =
      if str_eq p.id ""
      then (m, some id_required)
      else if str_eq p.owner ""
      then (m, some owner_required)
      else if is_some (lookup p.id m.params)
      then (m, some duplicate_parameter)
      else elim (add_node (parameter_node p.id) m.g) [
        | none ↦ (record m { params = insert p.id p m.params }, some graph_refused)
        | some g ↦ (record { g = g; params = insert p.id p m.params }, none)
      ]

  unfoldable pub add_dependency : String → String → ParametricModel V F → Returned V F
  add_dependency dep of m =
      if is_some (lookup dep m.params)
      then if is_some (lookup of m.params)
        then elim (add_edge (dependency_edge dep of) m.g) [
          | panic ↦ none
          | error ↦ some (m, some graph_refused)
          | ok g ↦ elim (has_cycle g) [
            | true ↦ some (record m { g = (remove_edge dep of g).0 }, some creates_a_cycle)
            | false ↦ some (record m { g = g }, none)
          ]
        ]
        else some (m, some unknown_parameter)
      else some (m, some unknown_parameter)

  unfoldable pub set_value :
      String → V → ParametricModel V F → ParametricModel V F × Option ModelError
  set_value id v m = elim (lookup id m.params) [
    | none ↦ (m, some unknown_parameter)
    | some p ↦
        if is_locked p.state
        then (m, some parameter_locked)
        else let params = insert id (record p { value = some v; state = defined }) m.params in
          elim (add_node (parameter_node id) m.g) [
            | none ↦ (record m { params = params }, some graph_refused)
            | some g ↦ (record { g = g; params = params }, none)
          ]
  ]

  unfoldable pub parameter : String → ParametricModel V F → Option (Parameter V F)
  parameter id m = lookup id m.params

  module _ (eval : F → List (String × Parameter V F) → Option V) where
    -- The parameter after its turn in the plan, or none for an error of its formula.
    unfoldable pub recompute :
        Parameter V F → List (String × Parameter V F) → Parameter V F × Option ModelError
    recompute p params = elim p.formula [
      | none ↦ (p, none)
      | some formula ↦ elim (eval formula params) [
        | none ↦ (record p { state = invalid }, some formula_failed)
        | some v ↦ (record p { value = some v; state = calculated }, none)
      ]
    ]

    -- The loop over the plan. A planned id without a parameter is a nil pointer: none.
    unfoldable pub run_plan :
        List String
        → List (String × Parameter V F)
        → Option (List (String × Parameter V F) × Option ModelError)
    unfolding recompute
    run_plan [] params = some (params, none)
    run_plan (id ∷ ids) params = elim (lookup id params) [
      | none ↦ none
      | some p ↦ elim (recompute p params).1 [
        | some e ↦ some (insert id (recompute p params).0 params, some e)
        | none ↦ run_plan ids (insert id (recompute p params).0 params)
      ]
    ]

    unfoldable pub rebuild : List String → ParametricModel V F → Returned V F
    unfolding run_plan
    rebuild changed m = elim (plan m.g changed) [
      | none ↦ some (m, some cycle_detected)
      | some ids ↦ elim (run_plan ids m.params) [
        | none ↦ none
        | some (params, some e) ↦ some (record m { params = params }, some e)
        | some (params, none) ↦
            some (record { g = mark_all changed (mark_all ids m.g); params = params }, none)
      ]
    ]
