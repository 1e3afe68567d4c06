-- ===== src/Scheduler/Result.antt =====
-- What the executor returns, whatever the order of the goroutines.
use stair_platform.Prelude.{
  ℕ, zero, suc, ◌+◌, ◌<◌, ◌≡◌, refl, sym, ap, ◌∙◌, inl, inr, Bool, true, false, ◌||◌, Option, none,
  some, List, [], ◌∷◌, arith, ◌==◌, Bool-cases, Option-cases, length,
}
use stair_platform.Scheduler.{
  Phase, Event, ended, act_at, State, start, step_at, step, run, sequential, execute, first_failure,
  all_ended, cancel, Move, move,
}
use stair_platform.Scheduler.Slots.{IsOwn, AllOwn, start-Inv, run-Inv}

-- The context does not end.
unfoldable pub NeverCancelled : List Event → Type 0
NeverCancelled [] = Unit
NeverCancelled (cancel ∷ es) = ⊥
NeverCancelled (move m k ∷ es) = NeverCancelled es

module _ {E : Type 0} (limit : ℕ) (fn : ℕ → Option E) (ctx_err : E) where
  first_failure-sequential :
      (i : ℕ) (ps : List (Phase E))
      → AllOwn limit fn ctx_err false i ps
      → all_ended ps ≡ true
      → first_failure ps ≡ sequential fn i (length ps)
  unfolding AllOwn IsOwn all_ended first_failure sequential
  first_failure-sequential i [] o a = refl
  first_failure-sequential i (ended r ∷ ps) o a =
      ground (arith, first_failure-sequential (i + 1) ps)
  first_failure-sequential i (_ ∷ ps) o a = absurd (ground arith)

  first_failure-none :
      (c : Bool) (i : ℕ) (ps : List (Phase E))
      → AllOwn limit fn ctx_err c i ps
      → all_ended ps ≡ true
      → first_failure ps ≡ none
      → sequential fn i (length ps) ≡ none
  unfolding AllOwn IsOwn all_ended first_failure sequential
  first_failure-none c i [] o a f = refl
  first_failure-none c i (ended r ∷ ps) o a f = ground (arith, first_failure-none c (i + 1) ps)
  first_failure-none c i (_ ∷ ps) o a f = absurd (ground arith)

  sequential-none : (i n j : ℕ) → sequential fn i n ≡ none → j < n → fn (i + j) ≡ none
  unfolding sequential
  sequential-none i zero j h l = absurd (omega arith)
  sequential-none i (suc n) zero h l = ground arith
  sequential-none i (suc n) (suc j) h l =
      let shift : i + suc j ≡ i + 1 + j = omega arith in
      rw shift (sequential-none (i + 1) n j (ground arith) (omega arith))

  step_at-cancelled :
      (m : Move) (k : ℕ) (s t : State E)
      → step_at limit fn ctx_err m k s ≡ some t
      → t.cancelled ≡ s.cancelled
  unfolding step_at
  step_at-cancelled m k s t h =
      elim (Option-cases (act_at limit fn ctx_err m 0 k s.held s.cancelled s.tasks)) [
        | inl stuck ↦ absurd (ground arith)
        | inr (w, moved) ↦ ground arith
      ]

  step-cancelled :
      (e : Event) (es : List Event) (s t : State E)
      → NeverCancelled (e ∷ es)
      → step limit fn ctx_err e s ≡ some t
      → NeverCancelled es × (t.cancelled ≡ s.cancelled)
  unfolding NeverCancelled step
  step-cancelled (move m k) es s t never h = (never, step_at-cancelled m k s t h)
  step-cancelled cancel es s t never h = absurd never

  pub run-cancelled :
      (es : List Event) (s t : State E)
      → NeverCancelled es
      → run limit fn ctx_err es s ≡ some t
      → t.cancelled ≡ s.cancelled
  unfolding run
  run-cancelled [] s t never h = ground arith
  run-cancelled (e ∷ es) s t never h = elim (Option-cases (step limit fn ctx_err e s)) [
    | inl stuck ↦ absurd (ground arith)
    | inr (u, moved) ↦
        let (later, same) = step-cancelled e es s u never moved in
        run-cancelled es u t later (ground arith) ∙ same
  ]

  -- What the goroutines leave in the slots once all have ended.
  run-slots :
      (es : List Event) (n : ℕ) (t : State E)
      → run limit fn ctx_err es (start n) ≡ some t
      → all_ended t.tasks ≡ true
      → (NeverCancelled es → first_failure t.tasks ≡ sequential fn 0 n)
        × (first_failure t.tasks ≡ none → sequential fn 0 n ≡ none)
  unfolding start
  run-slots es n t h a =
      let inv = run-Inv limit fn ctx_err es n (start n) t (start-Inv limit fn ctx_err n) h in
      (
        λ never.
            let on : t.cancelled ≡ false = run-cancelled es (start n) t never h in
            let own : AllOwn limit fn ctx_err false 0 t.tasks = rw on at inv.own in
            first_failure-sequential 0 t.tasks own a ∙ ap (sequential fn 0) inv.total,
        λ f.
            sym (ap (sequential fn 0) inv.total)
            ∙ first_failure-none t.cancelled 0 t.tasks inv.own a f,
      )

  execute-agrees :
      (n : ℕ) (events : List Event) (r : Option E)
      → execute limit fn ctx_err false n events ≡ some r
      → (NeverCancelled events → r ≡ sequential fn 0 n) × (r ≡ none → sequential fn 0 n ≡ none)
  unfolding execute
  execute-agrees zero events r h = ground arith
  execute-agrees (suc n) events r h = elim (Bool-cases (limit == 1 || suc n == 1)) [
    | inl alone ↦ ground arith
    | inr several ↦ elim (Option-cases (run limit fn ctx_err events (start (suc n)))) [
      | inl stuck ↦ absurd (ground arith)
      | inr (t, moved) ↦ elim (Bool-cases (all_ended t.tasks)) [
        | inl over ↦
            let same : first_failure t.tasks ≡ r = ground arith in
            rw (sym same) (run-slots events (suc n) t moved over)
        | inr left ↦ absurd (ground arith)
      ]
    ]
  ]

  -- However the goroutines interleave, where the context does not end and they all end, Execute
  -- returns what the tasks called in the order of their indices return: the first error of all.
  pub execute-sequential :
      (n : ℕ) (events : List Event) (r : Option E)
      → NeverCancelled events
      → execute limit fn ctx_err false n events ≡ some r
      → r ≡ sequential fn 0 n
  execute-sequential n events r never h = (execute-agrees n events r h).0 never

  -- However the goroutines interleave, even if the context ends, no error is returned only if no task
  -- has one.
  pub execute-none :
      (n i : ℕ) (events : List Event)
      → execute limit fn ctx_err false n events ≡ some none
      → i < n
      → fn i ≡ none
  execute-none n i events h l =
      let at_zero : 0 + i ≡ i = omega arith in
      sym (ap fn at_zero) ∙ sequential-none 0 n i ((execute-agrees n events none h).1 refl) l
