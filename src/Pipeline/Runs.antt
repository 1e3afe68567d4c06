-- ===== src/Pipeline/Runs.antt =====
-- How a run of the pipeline ends.
use stair_platform.Prelude.{
  ℕ, ◌+◌, String, ◌≡◌, refl, ap, ◌∙◌, inl, inr, Bool, true, false, Option, none, some, List, [],
  ◌∷◌, ◌++◌, arith, Bool-cases, Option-cases, All, lookup, is_some,
}
use Prim.Native.String.{◌++◌ as concat}
use stair_platform.Pipeline.{
  Context, Stage, Event, engine_started, engine_finished, pipeline_completed, pipeline_failed,
  Failure, Ran, ends, run_stages, before, dependencies_satisfied, context_error,
  dependencies_not_satisfied, stage_failed,
}

-- The stages that have begun, in order.
unfoldable pub begun : List Event → List String
begun [] = []
begun (engine_started name ∷ es) = name ∷ begun es
begun (_ ∷ es) = begun es

pub begun-append : (xs ys : List Event) → begun (xs ++ ys) ≡ begun xs ++ begun ys
unfolding begun
begun-append [] ys = refl
begun-append (engine_started name ∷ xs) ys = ap (λ r. name ∷ r) (begun-append xs ys)
begun-append (engine_finished name e ∷ xs) ys = begun-append xs ys
begun-append (pipeline_completed c ∷ xs) ys = begun-append xs ys
begun-append (pipeline_failed c s m ∷ xs) ys = begun-append xs ys

module _ {D : Type 0} where
  -- A stage leaves the id of the configuration.
  abbrev pub KeepsConfig : List (String × Stage D) → Type 0
  KeepsConfig stages =
      (name : String) (stage : Stage D) (c : Context D)
      → lookup name stages ≡ some stage
      → (stage.execute c).0.config_id ≡ c.config_id

  abbrev pub AllRegistered : List (String × Stage D) → List String → Type 0
  AllRegistered stages = All (λ name. is_some (lookup name stages) ≡ true)

  -- What the loop over registered stages comes to.
  abbrev pub GoodEnd : List String → Context D → Ran D → Type 0
  GoodEnd names c r =
      (f : Option Failure) × (es : List Event) × (after : Context D) × (r ≡ ends f es after)
      × (after.config_id ≡ c.config_id)
      × ((rest : List String) × (names ≡ begun es ++ rest) × (f ≡ none → rest ≡ []))

  module _ (stages : List (String × Stage D)) (ended : ℕ → Bool) where
    -- The branches of a stage that is registered.
    abbrev run_ended : String → Failure
    run_ended name = record { stage = name; message = "context cancelled"; error = context_error }

    abbrev unsatisfied : String → Failure
    unsatisfied name = record {
      stage = name;
      message = concat "pipeline: dependencies not satisfied for stage " name;
      error = dependencies_not_satisfied name;
    }

    abbrev failing : String → String → Failure
    failing name e = record { stage = name; message = e; error = stage_failed name e }

    run_stages_ended :
        (i : ℕ) (name : String) (names : List String) (c : Context D)
        → ended i ≡ true
        → run_stages stages ended i (name ∷ names) c ≡ ends (some (run_ended name)) [] c
    unfolding run_stages
    run_stages_ended i name names c h = rw (run_stages, h) refl

    module _ (i : ℕ) (name : String) (names : List String) (c : Context D) (stage : Stage D)
        (on : ended i ≡ false) (there : lookup name stages ≡ some stage) where
      run_stages-unsatisfied :
          dependencies_satisfied stages stage.depends_on c.values ≡ false
          → run_stages stages ended i (name ∷ names) c
            ≡ ends (some (unsatisfied name)) (engine_started name ∷ []) c
      unfolding run_stages
      run_stages-unsatisfied h = rw (run_stages, on, there, h) refl

      run_stages-failing :
          (e : String)
          → dependencies_satisfied stages stage.depends_on c.values ≡ true
          → (stage.execute c).1 ≡ some e
          → run_stages stages ended i (name ∷ names) c
            ≡ ends
                (some (failing name e))
                (engine_started name ∷ engine_finished name e ∷ [])
                (stage.execute c).0
      unfolding run_stages
      run_stages-failing e h f = rw (run_stages, on, there, h, f) refl

      pub run_stages_succeeding :
          dependencies_satisfied stages stage.depends_on c.values ≡ true
          → (stage.execute c).1 ≡ none
          → run_stages stages ended i (name ∷ names) c
            ≡ before
                (engine_started name ∷ engine_finished name "" ∷ [])
                (run_stages stages ended (i + 1) names (stage.execute c).0)
      unfolding run_stages
      run_stages_succeeding h f = rw (run_stages, on, there, h, f) refl

      stage-GoodEnd :
          (stage.execute c).0.config_id ≡ c.config_id
          → ((next : Context D) → GoodEnd names next (run_stages stages ended (i + 1) names next))
          → GoodEnd (name ∷ names) c (run_stages stages ended i (name ∷ names) c)
      unfolding begun
      stage-GoodEnd keeps later =
          elim (Bool-cases (dependencies_satisfied stages stage.depends_on c.values)) [
            | inl ready ↦ elim (Option-cases (stage.execute c).1) [
              | inl fine ↦
                  let (f, es, after, r, same, (rest, split, all)) = later (stage.execute c).0 in
                  (
                    f,
                    engine_started name ∷ engine_finished name "" ∷ es,
                    after,
                    run_stages_succeeding ready fine
                        ∙ ap (before (engine_started name ∷ engine_finished name "" ∷ [])) r,
                    same ∙ keeps,
                    (rest, ap (λ r. name ∷ r) split, all),
                  )
              | inr (e, failed) ↦ (
                some (failing name e),
                engine_started name ∷ engine_finished name e ∷ [],
                (stage.execute c).0,
                run_stages-failing e ready failed,
                keeps,
                (names, refl, λ none_failed. absurd (ground arith)),
              )
            ]
            | inr waiting ↦ (
              some (unsatisfied name),
              engine_started name ∷ [],
              c,
              run_stages-unsatisfied waiting,
              refl,
              (names, refl, λ none_failed. absurd (ground arith)),
            )
          ]

  pub run_stages-GoodEnd :
      (stages : List (String × Stage D)) (ended : ℕ → Bool) (i : ℕ) (names : List String)
      (c : Context D)
      → KeepsConfig stages
      → AllRegistered stages names
      → GoodEnd names c (run_stages stages ended i names c)
  unfolding begun run_stages
  run_stages-GoodEnd stages ended i [] c keeps reg =
      (none, [], c, refl, refl, ([], refl, λ _. refl))
  run_stages-GoodEnd stages ended i (name ∷ names) c keeps reg = elim (Bool-cases (ended i)) [
    | inl over ↦ (
      some (run_ended stages ended name),
      [],
      c,
      run_stages_ended stages ended i name names c over,
      refl,
      (name ∷ names, refl, λ none_failed. absurd (ground arith)),
    )
    | inr on ↦ elim (Option-cases (lookup name stages)) [
      | inl missing ↦ absurd (ground (arith, reg.0, missing))
      | inr (stage, there) ↦
          stage-GoodEnd stages ended i name names c stage on there (keeps name stage c there)
            (λ next. run_stages-GoodEnd stages ended (i + 1) names next keeps reg.1)
    ]
  ]
