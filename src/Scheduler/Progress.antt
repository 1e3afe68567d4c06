-- ===== src/Scheduler/Progress.antt =====
-- The executor ends: each move of a goroutine uses up work, and one can move until all have ended.
use stair_platform.Prelude.{
  ℕ, zero, suc, ◌+◌, ◌-◌, ◌*◌, ◌≤◌, ◌<◌, ◌≡◌, refl, inl, inr, Bool, true, false, Option, some, List,
  [], ◌∷◌, arith, ◌==◌, Bool-cases, Option-cases,
}
use stair_platform.Scheduler.{
  Phase, Move, Event, State, waiting, acquired, running, ended, acquire, give_up, check, finish,
  move, cancel, act, act_at, step_at, step, run, all_ended, start, waiting_tasks,
}
use stair_platform.Scheduler.Slots.{busy, Inv, start-Inv, step-Inv, run-Inv}
use stair_platform.Scheduler.Result.{NeverCancelled}

-- How many moves a goroutine has left at most.
abbrev pub left : {E : Type 0} → Phase E → ℕ
left waiting = 3
left acquired = 2
left running = 1
left (ended r) = 0

unfoldable pub work : {E : Type 0} → List (Phase E) → ℕ
work [] = 0
work (p ∷ ps) = left p + work ps

-- The moves among the events.
unfoldable pub moves : List Event → ℕ
moves [] = 0
moves (move m k ∷ es) = suc (moves es)
moves (cancel ∷ es) = moves es

module _ {E : Type 0} (limit : ℕ) (fn : ℕ → Option E) (ctx_err : E) where
  act-left :
      (m : Move) (i held : ℕ) (c : Bool) (p q : Phase E) (h : ℕ)
      → act limit fn ctx_err m i held c p ≡ some (q, h)
      → left q < left p
  unfolding act
  act-left acquire i held c waiting q h a = ground arith
  act-left give_up i held c waiting q h a = ground arith
  act-left check i held c acquired q h a = ground arith
  act-left finish i held c running q h a = ground arith
  act-left m i held c p q h a = absurd (ground arith)

  act_at-work :
      (m : Move) (i k held : ℕ) (c : Bool) (ps qs : List (Phase E)) (h : ℕ)
      → act_at limit fn ctx_err m i k held c ps ≡ some (qs, h)
      → work qs < work ps
  unfolding act_at work
  act_at-work m i k held c [] qs h a = absurd (ground arith)
  act_at-work m i zero held c (p ∷ ps) qs h a =
      elim (Option-cases (act limit fn ctx_err m i held c p)) [
        | inl stuck ↦ absurd (ground arith)
        | inr ((q, g), moved) ↦ ground (arith, act-left m i held c p q g moved)
      ]
  act_at-work m i (suc k) held c (p ∷ ps) qs h a =
      elim (Option-cases (act_at limit fn ctx_err m (i + 1) k held c ps)) [
        | inl stuck ↦ absurd (ground arith)
        | inr ((rs, g), moved) ↦ ground (arith, act_at-work m (i + 1) k held c ps rs g moved)
      ]

  -- A goroutine can move that holds a token, or, where none does, one that waits.
  abbrev CanMove : ℕ → ℕ → Bool → List (Phase E) → Type 0
  CanMove i held c ps =
      (m : Move) × (k : ℕ) × (qs : List (Phase E)) × (h : ℕ) × (act_at limit fn ctx_err m i k held c
          ps
        ≡ some (qs, h))

  CanMove-later :
      (i held : ℕ) (c : Bool) (p : Phase E) (ps : List (Phase E))
      → CanMove (i + 1) held c ps
      → CanMove i held c (p ∷ ps)
  unfolding act_at
  CanMove-later i held c p ps (m, k, qs, h, a) = (m, suc k, p ∷ qs, h, ground (arith, a))

  busy-CanMove : (i held : ℕ) (c : Bool) (ps : List (Phase E)) → 1 ≤ busy ps → CanMove i held c ps
  unfolding busy act_at act
  busy-CanMove i held c [] b = absurd (omega arith)
  busy-CanMove i held true (acquired ∷ ps) b = (check, 0, ended (some ctx_err) ∷ ps, held - 1, refl)
  busy-CanMove i held false (acquired ∷ ps) b = (check, 0, running ∷ ps, held, refl)
  busy-CanMove i held c (running ∷ ps) b = (finish, 0, ended (fn i) ∷ ps, held - 1, refl)
  busy-CanMove i held c (p ∷ ps) b =
      CanMove-later i held c p ps (busy-CanMove (i + 1) held c ps (omega arith))

  waiting-CanMove :
      (i held : ℕ) (c : Bool) (ps : List (Phase E))
      → busy ps ≡ 0
      → all_ended ps ≡ false
      → held < limit
      → CanMove i held c ps
  unfolding busy all_ended act_at act
  waiting-CanMove i held c [] b a l = absurd (ground arith)
  waiting-CanMove i held c (waiting ∷ ps) b a l =
      (acquire, 0, acquired ∷ ps, held + 1, ground arith)
  waiting-CanMove i held c (ended r ∷ ps) b a l =
      CanMove-later i held c (ended r) ps (waiting-CanMove (i + 1) held c ps (omega arith) a l)
  waiting-CanMove i held c (p ∷ ps) b a l = absurd (omega arith)

  step_exists :
      (n : ℕ) (s : State E)
      → 1 ≤ limit
      → Inv limit fn ctx_err n s
      → all_ended s.tasks ≡ false
      → (m : Move) × (k : ℕ) × (t : State E) × (step limit fn ctx_err (move m k) s ≡ some t)
        × (work t.tasks < work s.tasks)
  unfolding step step_at
  step_exists n s one inv a =
      let (m, k, qs, h, moved) : CanMove 0 s.held s.cancelled s.tasks =
        elim (Bool-cases (busy s.tasks == 0)) [
          | inl idle ↦
              waiting-CanMove 0 s.held s.cancelled s.tasks (ground arith) a
                (ground (arith, inv.counted))
          | inr some_busy ↦ busy-CanMove 0 s.held s.cancelled s.tasks (ground arith)
        ] in
      (
        m,
        k,
        record s { tasks = qs; held = h },
        ground arith,
        act_at-work m 0 k s.held s.cancelled s.tasks qs h moved,
      )

  run-work :
      (es : List Event) (s t : State E)
      → run limit fn ctx_err es s ≡ some t
      → moves es + work t.tasks ≤ work s.tasks
  unfolding run moves step step_at
  run-work [] s t h = let same : s ≡ t = ground arith in rw same (omega arith)
  run-work (cancel ∷ es) s t h = run-work es (record s { cancelled = true }) t h
  run-work (move m k ∷ es) s t h =
      elim (Option-cases (act_at limit fn ctx_err m 0 k s.held s.cancelled s.tasks)) [
        | inl stuck ↦ absurd (ground arith)
        | inr ((qs, g), moved) ↦
            let later = run-work es (record s { tasks = qs; held = g }) t (ground arith) in
            omega (arith, later, act_at-work m 0 k s.held s.cancelled s.tasks qs g moved)
      ]

  work-start : (n : ℕ) → work (start {E = E} n).tasks ≡ 3 * n
  unfolding start waiting_tasks work
  work-start zero = refl
  work-start (suc n) = omega (arith, work-start n)

  -- Events without the end of the context that lead to the end of all goroutines.
  abbrev pub CanEnd : State E → Type 0
  CanEnd s =
      (es : List Event) × (t : State E) × NeverCancelled es
      × (run limit fn ctx_err es s ≡ some t)
      × (all_ended t.tasks ≡ true)

  Inv-CanEnd :
      (w n : ℕ) (s : State E) → 1 ≤ limit → Inv limit fn ctx_err n s → work s.tasks ≤ w → CanEnd s
  unfolding run NeverCancelled
  Inv-CanEnd zero n s one inv l = elim (Bool-cases (all_ended s.tasks)) [
    | inl over ↦ ([], s, tt, refl, over)
    | inr not_over ↦
        let (m, k, t, moved, less) = step_exists n s one inv not_over in absurd (omega arith)
  ]
  Inv-CanEnd (suc w) n s one inv l = elim (Bool-cases (all_ended s.tasks)) [
    | inl over ↦ ([], s, tt, refl, over)
    | inr not_over ↦
        let (m, k, t, moved, less) = step_exists n s one inv not_over in
        let (es, u, never, goes, over) =
          Inv-CanEnd w n t one (step-Inv limit fn ctx_err (move m k) n s t inv moved)
            (omega arith) in
        (move m k ∷ es, u, never, ground arith, over)
  ]

  -- With a limit of at least 1, at every point of a run on `n` tasks the goroutines together have
  -- made at most `3 * n` moves, no more than `limit` of them are in their tasks, and there are
  -- further moves, none of them the end of the context, after which all goroutines have ended.
  pub run_ends :
      (n : ℕ) (events : List Event) (s : State E)
      → 1 ≤ limit
      → run limit fn ctx_err events (start n) ≡ some s
      → (moves events ≤ 3 * n) × (busy s.tasks ≤ limit) × CanEnd s
  run_ends n events s one h =
      let inv = run-Inv limit fn ctx_err events n (start n) s (start-Inv limit fn ctx_err n) h in
      (
        omega (arith, run-work events (start n) s h, work-start n),
        omega (arith, inv.counted, inv.bounded),
        Inv-CanEnd (work s.tasks) n s one inv (omega arith),
      )
