-- ===== src/Pipeline/Starts.antt =====
-- What Start leaves.
use stair_platform.Prelude.{
  ℕ, String, ◌≡◌, refl, ◌≢◌, inl, inr, Bool, false, Option, none, some, List, [], ◌∷◌, ◌++◌, arith,
  str_eq, eq_iff, if◌then◌else◌, Option-cases, lookup, insert, erase, lookup-insert, lookup-erase,
}
use mathlib.Core.List.{append-nil}
use stair_platform.Pipeline.{
  Context, Orchestrator, Event, pipeline_completed, pipeline_failed, StartError, Failure, ends,
  run_stages, new_context, start, is_active,
}
use stair_platform.Pipeline.Runs.{
  begun, begun-append, KeepsConfig, AllRegistered, run_stages-GoodEnd,
}

module _ {D : Type 0} where
  abbrev pub IsRunnable : Orchestrator D → Type 0
  IsRunnable o = AllRegistered o.stages o.order × KeepsConfig o.stages

  -- How a run of a configuration that is not active ends.
  abbrev pub RunEnds :
      String → Orchestrator D → Option (Orchestrator D × List Event × Option StartError) → Type 0
  RunEnds config o r =
      (after : Orchestrator D) × (es : List Event) × (error : Option StartError) × (r
        ≡ some (after, es, error))
      × (is_active config after ≡ false)
      × ((other : String) → other ≢ config → lookup other after.active ≡ lookup other o.active)
      × ((rest : List String) × (o.order ≡ begun es ++ rest) × (error ≡ none → rest ≡ []))

  erased :
      (config other : String) (c : Context D) (m : List (String × Context D))
      → lookup other (erase config (insert config c m))
        ≡ (if str_eq config other then none else lookup other m)
  erased config other c m =
      ground (arith, lookup-erase config other (insert config c m), lookup-insert config other c m)

  module _ (correlation : String) (ended : ℕ → Bool) (config actor tenant : String)
      (o : Orchestrator D) (idle : is_active config o ≡ false) where
    abbrev c : Context D
    c = new_context correlation config actor tenant

    abbrev settled : Orchestrator D
    settled = record o { active = erase config (insert config c o.active) }

    start_completed :
        (es : List Event) (after : Context D)
        → run_stages o.stages ended 0 o.order c ≡ ends none es after
        → start correlation ended config actor tenant o
          ≡ some (settled, es ++ pipeline_completed config ∷ [], none)
    unfolding is_active start
    start_completed es after r = rw (start, idle, r) refl

    start_failed :
        (f : Failure) (es : List Event) (after : Context D)
        → run_stages o.stages ended 0 o.order c ≡ ends (some f) es after
        → after.config_id ≡ config
        → start correlation ended config actor tenant o
          ≡ some (settled, es ++ pipeline_failed config f.stage f.message ∷ [], some f.error)
    unfolding is_active start
    start_failed f es after r same = rw (start, idle, r, same) refl

    settled_idle : is_active config settled ≡ false
    unfolding is_active
    settled_idle = ground (arith, erased config config c o.active, eq_iff config config)

    settled_others :
        (other : String) → other ≢ config → lookup other settled.active ≡ lookup other o.active
    settled_others other apart = ground (arith, erased config other c o.active, eq_iff config other)

    start_ends : IsRunnable o → RunEnds config o (start correlation ended config actor tenant o)
    unfolding begun new_context
    start_ends (reg, keeps) =
        let (f, es, after, r, same, (rest, split, all)) =
          run_stages-GoodEnd o.stages ended 0 o.order c keeps reg in
        elim (Option-cases f) [
          | inl fine ↦
              let e = es ++ pipeline_completed config ∷ [] in
              (
                settled,
                e,
                none,
                start_completed es after (rw fine at r),
                settled_idle,
                settled_others,
                (rest, rw (begun-append, append-nil) split, λ _. all fine),
              )
          | inr (g, failed) ↦ (
            settled,
            es ++ pipeline_failed config g.stage g.message ∷ [],
            some g.error,
            start_failed g es after (rw failed at r) same,
            settled_idle,
            settled_others,
            (rest, rw (begun-append, append-nil) split, λ none_failed. absurd (ground arith)),
          )
        ]

  -- Where every stage in the order is registered and leaves the id of the configuration, Start on a
  -- configuration that is not active ends without a panic, the configuration is not active then, the
  -- others are as before, the stages that it began are the first ones of the order, and without an
  -- error they are all.
  pub start-RunEnds :
      (correlation : String) (ended : ℕ → Bool) (config actor tenant : String) (o : Orchestrator D)
      → IsRunnable o
      → is_active config o ≡ false
      → RunEnds config o (start correlation ended config actor tenant o)
  start-RunEnds correlation ended config actor tenant o ok idle =
      start_ends correlation ended config actor tenant o idle ok
