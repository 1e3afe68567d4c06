-- ===== src/Pipeline.antt =====
-- internal/engine/pipeline/orchestrator.go: the pipeline of stages. A stage's code is a function on
-- the context that it is given, with the text of its error, if any; `ended` tells whether the Go
-- context has ended before the stage of a position. The events are those of the event store, in
-- order; D is the type of the data of a context.
pub mod Runs
pub mod Starts
pub mod Dependencies
mod Examples
use stair_platform.Prelude.{
  ℕ, ◌+◌, String, Bool, true, false, not, ◌&&◌, Option, none, some, List, [], ◌∷◌, ◌++◌,
  if◌then◌else◌, length, lookup, insert, erase, is_some,
}
use Prim.Native.String.{◌++◌ as concat}

pub record Context (D : Type 0) : Type 0 where
  pub correlation_id : String
  pub config_id : String
  pub actor : String
  pub tenant : String
  -- The field `Data`.
  pub values : List (String × D)
  pub error : Option String
  pub failed_stage : String

pub record Stage (D : Type 0) : Type 0 where
  pub name : String
  pub execute : Context D → Context D × Option String
  pub depends_on : List String

pub record Orchestrator (D : Type 0) : Type 0 where
  pub stages : List (String × Stage D)
  pub order : List String
  pub active : List (String × Context D)

pub data Event : Type 0 where
  engine_started : String → Event
  engine_finished : String → String → Event
  pipeline_completed : String → Event
  pipeline_failed : String → String → String → Event

-- The errors that Start returns.
pub data StartError : Type 0 where
  already_running context_error : StartError
  dependencies_not_satisfied : String → StartError
  stage_failed : String → String → StartError

pub record Failure : Type 0 where
  pub stage : String
  pub message : String
  pub error : StartError

-- How the loop over the stages ends, with its events. A stage that is not registered panics.
pub data Ran (D : Type 0) : Type 0 where
  panics : Ran D
  ends : Option Failure → List Event → Context D → Ran D

unfoldable pub new_orchestrator : {D : Type 0} → Orchestrator D
new_orchestrator = record { stages = []; order = []; active = [] }

-- `"stage:" + dep + ":done"`
unfoldable pub done_key : String → String
done_key dep = concat "stage:" (concat dep ":done")

module _ {D : Type 0} where
  unfoldable pub register_stage : Stage D → Orchestrator D → Orchestrator D
  register_stage stage o = record o {
    stages = insert stage.name stage o.stages;
    order = o.order ++ stage.name ∷ [];
  }

  unfoldable pub is_active : String → Orchestrator D → Bool
  is_active config o = is_some (lookup config o.active)

  unfoldable pub active_count : Orchestrator D → ℕ
  active_count o = length o.active

  unfoldable pub dependencies_satisfied :
      List (String × Stage D) → List String → List (String × D) → Bool
  unfolding done_key
  dependencies_satisfied stages [] values = true
  dependencies_satisfied stages (dep ∷ deps) values =
      is_some (lookup dep stages)
      && is_some (lookup (done_key dep) values)
      && dependencies_satisfied stages deps values

  -- What the events of the first stage are put before.
  abbrev pub before : List Event → Ran D → Ran D
  before es panics = panics
  before es (ends f later c) = ends f (es ++ later) c

  unfoldable pub run_stages :
      List (String × Stage D) → (ℕ → Bool) → ℕ → List String → Context D → Ran D
  unfolding dependencies_satisfied
  run_stages stages ended i [] c = ends none [] c
  run_stages stages ended i (name ∷ names) c = elim (ended i) [
    | true ↦
        ends (some (record { stage = name; message = "context cancelled"; error = context_error }))
          [] c
    | false ↦ elim (lookup name stages) [
      | none ↦ panics
      | some stage ↦ elim (dependencies_satisfied stages stage.depends_on c.values) [
        | false ↦
            ends
              (some (record {
                stage = name;
                message = concat "pipeline: dependencies not satisfied for stage " name;
                error = dependencies_not_satisfied name;
              }))
              (engine_started name ∷ []) c
        | true ↦
            let (after, result) = stage.execute c in
            elim result [
              | some e ↦
                  ends (some (record { stage = name; message = e; error = stage_failed name e }))
                    (engine_started name ∷ engine_finished name e ∷ []) after
              | none ↦
                  before (engine_started name ∷ engine_finished name "" ∷ [])
                    (run_stages stages ended (i + 1) names after)
            ]
      ]
    ]
  ]

  -- The context of a run that begins.
  unfoldable pub new_context : String → String → String → String → Context D
  new_context correlation config actor tenant = record {
    correlation_id = correlation;
    config_id = config;
    actor = actor;
    tenant = tenant;
    values = [];
    error = none;
    failed_stage = "";
  }

  -- What Start leaves, with its events and its error; none if it panics.
  unfoldable pub start :
      String
      → (ℕ → Bool)
      → String
      → String
      → String
      → Orchestrator D
      → Option (Orchestrator D × List Event × Option StartError)
  unfolding run_stages new_context
  start correlation ended config actor tenant o =
      let c = new_context correlation config actor tenant in
      let active = insert config c o.active in
      if is_some (lookup config o.active)
      then some (o, [], some already_running)
      else elim (run_stages o.stages ended 0 o.order c) [
        | panics ↦ none
        | ends none events after ↦ some (
          record o { active = erase config active },
          events ++ pipeline_completed config ∷ [],
          none,
        )
        | ends (some f) events after ↦ some (
          record o { active = erase after.config_id active },
          events ++ pipeline_failed after.config_id f.stage f.message ∷ [],
          some f.error,
        )
      ]
