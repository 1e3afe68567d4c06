-- ===== src/Parametric/Examples.antt =====
-- Examples on the parameters of a model. A formula is a number that is added to a parameter.
use stair_platform.Prelude.{
  ℕ, ◌+◌, ◌≤◌, String, ◌≡◌, ◌↔◌, refl, true, false, Option, none, some, List, [], ◌∷◌, lookup,
  contains, occurs, is_some,
}
use stair_platform.Graph.{has_node}
use stair_platform.Graph.Keys.{is_plain}
use stair_platform.Graph.Topology.{has_cycle}
use stair_platform.Graph.Plan.{plan}
use stair_platform.Graph.Plan.Dirty.{IsDirty}
use stair_platform.Graph.Plan.Dependents.{InOrder}
use stair_platform.Parametric.{
  Parameter, ParametricModel, new_parameter, new_derived_parameter, new_model,
}
use stair_platform.Parametric.Rebuilt.{
  Call, add, depend, set, rebuild_all, run, all_simple, run-planned,
}

abbrev Params : Type 0
Params = List (String × Parameter ℕ ℕ)

abbrev value_of : Option (Parameter ℕ ℕ) → Option ℕ
value_of none = none
value_of (some p) = p.value

abbrev plus_value : ℕ → Option ℕ → Option ℕ
plus_value n none = none
plus_value n (some v) = some (v + n)

-- The height and a number.
eval_height : ℕ → Params → Option ℕ
eval_height n params = plus_value n (value_of (lookup "height" params))

abbrev calls : List (Call eval_height)
calls =
    add (new_parameter "height" "stair" "length" 3000)
    ∷ add (new_derived_parameter "rise" "stair" "formula" 15)
    ∷ depend "height" "rise"
    ∷ depend "rise" "height"
    ∷ set "height" 2700
    ∷ rebuild_all ("height" ∷ [])
    ∷ []

simple_calls : all_simple eval_height calls ≡ true
unfolding is_plain new_parameter new_derived_parameter
simple_calls = refl

run-planned_example :
    (m : ParametricModel ℕ ℕ) × (run eval_height calls new_model ≡ some m)
    × (has_cycle m.g ≡ false)
    × ((a : String) → has_node a m.g ≡ is_some (lookup a m.params))
    × ((changed : List String)
        → (ids : List String) × (plan m.g changed ≡ some ids)
          × ((x : String) → (contains ids x ≡ true) ↔ IsDirty m.g changed x)
          × ((x : String) → occurs x ids ≤ 1)
          × InOrder m.g ids [] ids)
run-planned_example = run-planned eval_height calls simple_calls
