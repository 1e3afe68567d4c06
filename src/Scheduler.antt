-- ===== src/Scheduler.antt =====
-- internal/engine/scheduler/scheduler.go: the bounded parallel executor. A task is a goroutine; an
-- event is one of its steps, so an interleaving of the goroutines is a list of events. `fn` gives
-- the error of the task of an index and `ctx_err` is the error of an ended context.
pub mod Slots
pub mod Result
pub mod Progress
mod Examples
use stair_platform.Prelude.{
  ℕ, zero, suc, ◌+◌, ◌-◌, Bool, true, false, ◌||◌, Option, none, some, List, [], ◌∷◌, ltb, ◌==◌,
  if◌then◌else◌,
}

-- `New`, where a negative limit is 0; `procs` is GOMAXPROCS.
unfoldable pub new : ℕ → ℕ → ℕ
new limit procs =
    let chosen = if limit == 0 then procs else limit in if ltb chosen 1 then 1 else chosen

-- Where a goroutine stands: before the select, holding a slot, in `fn`, or ended with `errs[i]`.
pub data Phase (E : Type 0) : Type 0 where
  waiting acquired running : Phase E
  ended : Option E → Phase E

-- What a goroutine does next: it takes a slot or sees the end of the context in the select, tests
-- the context, or returns from `fn`.
pub data Move : Type 0 where
  acquire give_up check finish : Move

-- A move of the goroutine of an index, or the end of the context.
pub data Event : Type 0 where
  move : Move → ℕ → Event
  cancel : Event

-- `held` is the number of tokens in `sem`.
pub record State (E : Type 0) : Type 0 where
  pub tasks : List (Phase E)
  pub held : ℕ
  pub cancelled : Bool

unfoldable pub waiting_tasks : {E : Type 0} → ℕ → List (Phase E)
waiting_tasks zero = []
waiting_tasks (suc n) = waiting ∷ waiting_tasks n

-- The state before the goroutines run.
unfoldable pub start : {E : Type 0} → ℕ → State E
start n = record { tasks = waiting_tasks n; held = 0; cancelled = false }

-- `errs[i]`
abbrev pub slot : {E : Type 0} → Phase E → Option E
slot (ended r) = r
slot _ = none

unfoldable pub all_ended : {E : Type 0} → List (Phase E) → Bool
all_ended [] = true
all_ended (ended r ∷ ps) = all_ended ps
all_ended (_ ∷ ps) = false

-- The loop over `errs`.
unfoldable pub first_failure : {E : Type 0} → List (Phase E) → Option E
first_failure [] = none
first_failure (p ∷ ps) = elim (slot p) [ none ↦ first_failure ps | some e ↦ some e ]

-- The path without goroutines, for the indices from `i` on: it ends at the first error.
unfoldable pub sequential : {E : Type 0} → (ℕ → Option E) → ℕ → ℕ → Option E
sequential fn i zero = none
sequential fn i (suc n) =
    let rest = sequential fn (i + 1) n in elim (fn i) [ none ↦ rest | some e ↦ some e ]

module _ {E : Type 0} (limit : ℕ) (fn : ℕ → Option E) (ctx_err : E) where
  -- A step of one goroutine: its next phase and the tokens held then, or none if it cannot be taken.
  unfoldable pub act : Move → ℕ → ℕ → Bool → Phase E → Option (Phase E × ℕ)
  act acquire i held cancelled waiting = if ltb held limit then some (acquired, held + 1) else none
  act give_up i held cancelled waiting =
      if cancelled then some (ended (some ctx_err), held) else none
  act check i held cancelled acquired =
      some (if cancelled then (ended (some ctx_err), held - 1) else (running, held))
  act finish i held cancelled running = some (ended (fn i), held - 1)
  act m i held cancelled _ = none

  -- The step of the task at a position; `i` is the index of the first task of the list.
  unfoldable pub act_at : Move → ℕ → ℕ → ℕ → Bool → List (Phase E) → Option (List (Phase E) × ℕ)
  unfolding act
  act_at m i k held cancelled [] = none
  act_at m i zero held cancelled (p ∷ ps) = elim (act m i held cancelled p) [
    | none ↦ none
    | some (q, held) ↦ some (q ∷ ps, held)
  ]
  act_at m i (suc k) held cancelled (p ∷ ps) = elim (act_at m (i + 1) k held cancelled ps) [
    | none ↦ none
    | some (qs, held) ↦ some (p ∷ qs, held)
  ]

  unfoldable pub step_at : Move → ℕ → State E → Option (State E)
  unfolding act_at
  step_at m k s = elim (act_at m 0 k s.held s.cancelled s.tasks) [
    | none ↦ none
    | some (tasks, held) ↦ some (record s { tasks = tasks; held = held })
  ]

  unfoldable pub step : Event → State E → Option (State E)
  unfolding step_at
  step (move m k) s = step_at m k s
  step cancel s = some (record s { cancelled = true })

  unfoldable pub run : List Event → State E → Option (State E)
  unfolding step
  run [] s = some s
  run (e ∷ es) s = elim (step e s) [ none ↦ none | some t ↦ run es t ]

  -- `Execute`, whose goroutines interleave as the events tell; none if they do not all end.
  unfoldable pub execute : Bool → ℕ → List Event → Option (Option E)
  unfolding run sequential all_ended first_failure start
  execute cancelled n events =
      if n == 0
      then some none
      else if cancelled
      then some (some ctx_err)
      else if limit == 1 || n == 1
      then some (sequential fn 0 n)
      else elim (run events (start n)) [
        | none ↦ none
        | some s ↦ if all_ended s.tasks then some (first_failure s.tasks) else none
      ]
