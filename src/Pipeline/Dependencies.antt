-- ===== src/Pipeline/Dependencies.antt =====
-- The marks that a dependency on a stage asks for.
use stair_platform.Prelude.{
  ℕ, ◌+◌, String, ◌≡◌, refl, sym, ap, ◌∙◌, ◌⊎◌, inl, inr, Bool, true, Option, none, some, List, [],
  ◌∷◌, arith, Bool-cases, Option-cases, All, lookup, is_some,
}
use stair_platform.Pipeline.{
  Context, Stage, Orchestrator, Event, engine_started, engine_finished, Failure, Ran, panics, ends,
  before, run_stages, new_context, start, done_key, dependencies_satisfied,
}
use stair_platform.Pipeline.Runs.{run_stages_succeeding}

module _ {D : Type 0} where
  -- A context without a mark for a stage that is done.
  abbrev pub NoMarks : Context D → Type 0
  NoMarks c = (dep : String) → lookup (done_key dep) c.values ≡ none

  -- No stage writes such a mark.
  abbrev pub WritesNoMarks : List (String × Stage D) → Type 0
  WritesNoMarks stages =
      (name : String) (stage : Stage D) (c : Context D)
      → lookup name stages ≡ some stage
      → NoMarks c
      → NoMarks (stage.execute c).0

  abbrev pub Independent : List (String × Stage D) → String → Type 0
  Independent stages name =
      (stage : Stage D) → lookup name stages ≡ some stage → stage.depends_on ≡ []

  satisfied-nil :
      (stages : List (String × Stage D)) (deps : List String) (c : Context D)
      → NoMarks c
      → dependencies_satisfied stages deps c.values ≡ true
      → deps ≡ []
  unfolding dependencies_satisfied
  satisfied-nil stages [] c none_marked h = refl
  satisfied-nil stages (dep ∷ deps) c none_marked h = absurd (ground (arith, none_marked dep))

  before-ends :
      (es all : List Event) (r : Ran D) (after : Context D)
      → before es r ≡ ends none all after
      → (later : List Event) × (r ≡ ends none later after)
  before-ends es all panics after h = absurd (ground arith)
  before-ends es all (ends f later c) after h = (later, ground arith)

  Ran-cases :
      (r : Ran D)
      → (r ≡ panics)
        ⊎ ((f : Option Failure) × (es : List Event) × (c : Context D) × (r ≡ ends f es c))
  Ran-cases panics = inl refl
  Ran-cases (ends f es c) = inr (f, es, c, refl)

  run_stages-Independent :
      (stages : List (String × Stage D)) (ended : ℕ → Bool) (i : ℕ) (names : List String)
      (c after : Context D) (es : List Event)
      → WritesNoMarks stages
      → NoMarks c
      → run_stages stages ended i names c ≡ ends none es after
      → All (Independent stages) names
  unfolding run_stages
  run_stages-Independent stages ended i [] c after es writes clean h = tt
  run_stages-Independent stages ended i (name ∷ names) c after es writes clean h =
      elim (Bool-cases (ended i)) [
        | inl over ↦ absurd (ground arith)
        | inr on ↦ elim (Option-cases (lookup name stages)) [
          | inl missing ↦ absurd (ground arith)
          | inr (stage, there) ↦
              elim (Bool-cases (dependencies_satisfied stages stage.depends_on c.values)) [
                | inl ready ↦ elim (Option-cases (stage.execute c).1) [
                  | inl fine ↦
                      let (later, goes) =
                        before-ends (engine_started name ∷ engine_finished name "" ∷ []) es
                          (run_stages stages ended (i + 1) names (stage.execute c).0) after
                          (sym (
                              run_stages_succeeding stages ended i name names c stage on there ready
                                fine)
                            ∙ h) in
                      (
                        λ other same.
                            let alike : stage ≡ other = ground (arith, there, same) in
                            rw (sym alike) (satisfied-nil stages stage.depends_on c clean ready),
                        run_stages-Independent stages ended (i + 1) names (stage.execute c).0 after
                            later writes (writes name stage c there clean) goes,
                      )
                  | inr (e, failed) ↦ absurd (ground arith)
                ]
                | inr unmet ↦ absurd (ground arith)
              ]
        ]
      ]

  -- The orchestrator writes no mark itself: where the stages write none, a run that ends without an
  -- error has only stages without dependencies in its order.
  pub start-Independent :
      (correlation : String) (ended : ℕ → Bool) (config actor tenant : String)
      (o after : Orchestrator D) (es : List Event)
      → WritesNoMarks o.stages
      → start correlation ended config actor tenant o ≡ some (after, es, none)
      → All (Independent o.stages) o.order
  unfolding start new_context lookup
  start-Independent correlation ended config actor tenant o after es writes h =
      let c : Context D = new_context correlation config actor tenant in
      elim (Bool-cases (is_some (lookup config o.active))) [
        | inl busy ↦ absurd (ground arith)
        | inr idle ↦ elim (Ran-cases (run_stages o.stages ended 0 o.order c)) [
          | inl panicking ↦ absurd (ground arith)
          | inr (f, later, left, r) ↦ elim (Option-cases f) [
            | inl fine ↦
                run_stages-Independent o.stages ended 0 o.order c left later writes (λ dep. refl)
                  (r ∙ ap (λ g. ends g later left) fine)
            | inr (g, failed) ↦ absurd (ground arith)
          ]
        ]
      ]
