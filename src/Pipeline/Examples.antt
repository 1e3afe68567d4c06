-- ===== src/Pipeline/Examples.antt =====
-- A pipeline of two stages, of which the second depends on the first.
use stair_platform.Prelude.{
  ℕ, String, ◌≡◌, refl, sym, ap, ◌⊎◌, inl, inr, Bool, true, false, Option, none, some, List, [],
  ◌∷◌, arith, str_eq, if◌then◌else◌, All, lookup, insert, erase,
}
use stair_platform.Pipeline.{
  Context, Stage, Orchestrator, engine_started, engine_finished, pipeline_completed,
  new_orchestrator, register_stage, run_stages, new_context, start, is_active,
  dependencies_satisfied,
}
use stair_platform.Pipeline.Runs.{KeepsConfig, AllRegistered}
use stair_platform.Pipeline.Starts.{RunEnds, start-RunEnds}
use stair_platform.Pipeline.Dependencies.{WritesNoMarks, Independent, start-Independent}

abbrev stage_named : String → List String → Stage ℕ
stage_named name deps = record { name = name; execute = λ c. (c, none); depends_on = deps }

abbrev dependent : Orchestrator ℕ
dependent = record {
  stages =
      ("geometry", stage_named "geometry" [])
      ∷ ("pricing", stage_named "pricing" ("geometry" ∷ []))
      ∷ [];
  order = "geometry" ∷ "pricing" ∷ [];
  active = [];
}

dependent_built :
    register_stage
      (stage_named "pricing" ("geometry" ∷ []))
      (register_stage (stage_named "geometry" []) new_orchestrator)
    ≡ dependent
unfolding register_stage new_orchestrator insert
dependent_built = refl

abbrev independent : Orchestrator ℕ
independent = record {
  stages = ("geometry", stage_named "geometry" []) ∷ [];
  order = "geometry" ∷ [];
  active = [];
}

all_registered : AllRegistered dependent.stages dependent.order
unfolding lookup
all_registered = (refl, (refl, tt))

first_found :
    (test : Bool) (first stage : Stage ℕ) (rest : Option (Stage ℕ))
    → (if test then some first else rest) ≡ some stage
    → (first ≡ stage) ⊎ (rest ≡ some stage)
first_found true first stage rest h = inl (ground arith)
first_found false first stage rest h = inr h

-- Stages that leave the context.
leaves :
    (name : String) (stage : Stage ℕ) (c : Context ℕ)
    → lookup name dependent.stages ≡ some stage
    → (stage.execute c).0 ≡ c
unfolding lookup
leaves name stage c h =
    elim (first_found (str_eq "geometry" name) (stage_named "geometry" []) stage
      (lookup name (("pricing", stage_named "pricing" ("geometry" ∷ [])) ∷ [])) h) [
        | inl here ↦ rw (sym here) refl
        | inr later ↦
            elim (first_found (str_eq "pricing" name) (stage_named "pricing" ("geometry" ∷ []))
              stage none later) [
                | inl here ↦ rw (sym here) refl
                | inr nowhere ↦ absurd (ground arith)
              ]
      ]

keeps_config : KeepsConfig dependent.stages
keeps_config name stage c h = ap (λ (d : Context ℕ). d.config_id) (leaves name stage c h)

config_idle : is_active "c1" dependent ≡ false
unfolding is_active lookup
config_idle = refl

start-RunEnds_example : RunEnds "c1" dependent (start "x" (λ _. false) "c1" "ann" "t" dependent)
start-RunEnds_example =
    start-RunEnds "x" (λ _. false) "c1" "ann" "t" dependent (all_registered, keeps_config)
      config_idle

writes_none : WritesNoMarks independent.stages
unfolding lookup
writes_none name stage c h clean =
    elim (first_found (str_eq "geometry" name) (stage_named "geometry" []) stage none h) [
      | inl here ↦ rw (sym here) clean
      | inr nowhere ↦ absurd (ground arith)
    ]

independent_runs :
    start "x" (λ _. false) "c1" "ann" "t" independent
    ≡ some (
      independent,
      engine_started "geometry" ∷ engine_finished "geometry" "" ∷ pipeline_completed "c1" ∷ [],
      none,
    )
unfolding start run_stages new_context dependencies_satisfied lookup insert erase
independent_runs = refl

start-Independent_example : All (Independent independent.stages) ("geometry" ∷ [])
start-Independent_example =
    start-Independent "x" (λ _. false) "c1" "ann" "t" independent independent
      (engine_started "geometry" ∷ engine_finished "geometry" "" ∷ pipeline_completed "c1" ∷ [])
      writes_none independent_runs
