-- ===== src/Scheduler/Slots.antt =====
-- What the slots of the executor hold, whatever the order of the goroutines.
use stair_platform.Prelude.{
  ℕ, zero, suc, ◌+◌, ◌≤◌, ◌≡◌, refl, sym, ◌∙◌, ◌⊎◌, inl, inr, Bool, true, false, Option, some, List,
  [], ◌∷◌, arith, Option-cases, length,
}
use stair_platform.Scheduler.{
  Phase, Event, waiting, acquired, running, ended, acquire, give_up, check, finish, act, act_at,
  State, start, step_at, step, run, waiting_tasks, cancel, Move, move,
}

-- Whether a goroutine holds a token.
abbrev pub is_busy : {E : Type 0} → Phase E → ℕ
is_busy acquired = 1
is_busy running = 1
is_busy _ = 0

unfoldable pub busy : {E : Type 0} → List (Phase E) → ℕ
busy [] = 0
busy (p ∷ ps) = is_busy p + busy ps

module _ {E : Type 0} (limit : ℕ) (fn : ℕ → Option E) (ctx_err : E) where
  -- A slot holds the error of its own task, or that of the context once it has ended.
  unfoldable pub IsOwn : Bool → ℕ → Phase E → Type 0
  IsOwn cancelled i (ended r) = (r ≡ fn i) ⊎ ((cancelled ≡ true) × (r ≡ some ctx_err))
  IsOwn cancelled i _ = Unit

  unfoldable pub AllOwn : Bool → ℕ → List (Phase E) → Type 0
  AllOwn cancelled i [] = Unit
  AllOwn cancelled i (p ∷ ps) = IsOwn cancelled i p × AllOwn cancelled (i + 1) ps

  -- What a step of a task keeps: its slot is its own, and the tokens held are counted.
  act_lem :
      (m : Move) (i held : ℕ) (c : Bool) (p q : Phase E) (h : ℕ)
      → is_busy p ≤ held
      → held ≤ limit
      → act limit fn ctx_err m i held c p ≡ some (q, h)
      → IsOwn c i q × (is_busy q + held ≡ is_busy p + h) × (h ≤ limit)
  unfolding act IsOwn
  act_lem acquire i held c waiting q h b l a = ground arith
  act_lem give_up i held c waiting q h b l a = ground arith
  act_lem check i held c acquired q h b l a = ground arith
  act_lem finish i held c running q h b l a = ground arith
  act_lem m i held c p q h b l a = absurd (ground arith)

  act_at_lem :
      (m : Move) (i k held : ℕ) (c : Bool) (ps qs : List (Phase E)) (h : ℕ)
      → busy ps ≤ held
      → held ≤ limit
      → AllOwn c i ps
      → act_at limit fn ctx_err m i k held c ps ≡ some (qs, h)
      → AllOwn c i qs × (busy qs + held ≡ busy ps + h) × (h ≤ limit) × (length qs ≡ length ps)
  unfolding act_at AllOwn busy
  act_at_lem m i k held c [] qs h b l o a = absurd (ground arith)
  act_at_lem m i zero held c (p ∷ ps) qs h b l o a =
      elim (Option-cases (act limit fn ctx_err m i held c p)) [
        | inl stuck ↦ absurd (ground arith)
        | inr ((q, g), moved) ↦ ground (arith, act_lem m i held c p q g (omega (arith, b)) l moved)
      ]
  act_at_lem m i (suc k) held c (p ∷ ps) qs h b l o a =
      elim (Option-cases (act_at limit fn ctx_err m (i + 1) k held c ps)) [
        | inl stuck ↦ absurd (ground arith)
        | inr ((rs, g), moved) ↦
            ground (arith, act_at_lem m (i + 1) k held c ps rs g (omega (arith, b)) l o.1 moved)
      ]

  pub record Inv (n : ℕ) (s : State E) : Type 0 where
    pub own : AllOwn s.cancelled 0 s.tasks
    pub counted : busy s.tasks ≡ s.held
    pub bounded : s.held ≤ limit
    pub total : length s.tasks ≡ n

  AllOwn-cancelled : (c : Bool) (i : ℕ) (ps : List (Phase E)) → AllOwn c i ps → AllOwn true i ps
  unfolding AllOwn IsOwn
  AllOwn-cancelled c i [] o = tt
  AllOwn-cancelled c i (ended r ∷ ps) o = ground (arith, AllOwn-cancelled c (i + 1) ps)
  AllOwn-cancelled c i (_ ∷ ps) o = ground (arith, AllOwn-cancelled c (i + 1) ps)

  waiting_tasks_lem :
      (i n : ℕ)
      → AllOwn false i (waiting_tasks n)
        × (busy (waiting_tasks {E = E} n) ≡ 0)
        × (length (waiting_tasks {E = E} n) ≡ n)
  unfolding waiting_tasks AllOwn busy IsOwn
  waiting_tasks_lem i zero = (tt, refl, refl)
  waiting_tasks_lem i (suc n) = ground (arith, waiting_tasks_lem (i + 1) n)

  pub start-Inv : (n : ℕ) → Inv n (start n)
  unfolding start
  start-Inv n =
      let fresh = waiting_tasks_lem 0 n in
      record { own = fresh.0; counted = fresh.1; bounded = omega arith; total = fresh.2 }

  step_at-Inv :
      (m : Move) (k n : ℕ) (s t : State E)
      → Inv n s
      → step_at limit fn ctx_err m k s ≡ some t
      → Inv n t
  unfolding step_at
  step_at-Inv m k n s t inv h =
      elim (Option-cases (act_at limit fn ctx_err m 0 k s.held s.cancelled s.tasks)) [
        | inl stuck ↦ absurd (ground arith)
        | inr ((qs, g), moved) ↦
            let kept : AllOwn s.cancelled 0 qs
                × (busy qs + s.held ≡ busy s.tasks + g)
                × (g ≤ limit)
                × (length qs ≡ length s.tasks) =
              act_at_lem m 0 k s.held s.cancelled s.tasks qs g (omega (arith, inv.counted))
                inv.bounded inv.own moved in
            let shape : record s { tasks = qs; held = g } ≡ t = ground arith in
            rw (sym shape) (record {
              own = kept.0;
              counted = omega (arith, kept, inv.counted);
              bounded = kept.2;
              total = kept.3 ∙ inv.total;
            })
      ]

  pub step-Inv :
      (e : Event) (n : ℕ) (s t : State E) → Inv n s → step limit fn ctx_err e s ≡ some t → Inv n t
  unfolding step
  step-Inv (move m k) n s t inv h = step_at-Inv m k n s t inv h
  step-Inv cancel n s t inv h =
      let shape : record s { cancelled = true } ≡ t = ground arith in
      rw (sym shape) (record {
        own = AllOwn-cancelled s.cancelled 0 s.tasks inv.own;
        counted = inv.counted;
        bounded = inv.bounded;
        total = inv.total;
      })

  pub run-Inv :
      (es : List Event) (n : ℕ) (s t : State E)
      → Inv n s
      → run limit fn ctx_err es s ≡ some t
      → Inv n t
  unfolding run
  run-Inv [] n s t inv h = let same : s ≡ t = ground arith in rw (sym same) inv
  run-Inv (e ∷ es) n s t inv h = elim (Option-cases (step limit fn ctx_err e s)) [
    | inl stuck ↦ absurd (ground arith)
    | inr (u, moved) ↦ run-Inv es n u t (step-Inv e n s u inv moved) (ground arith)
  ]
