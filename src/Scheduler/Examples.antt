-- ===== src/Scheduler/Examples.antt =====
-- Three tasks on two slots, of which the second and the third fail.
use stair_platform.Prelude.{
  ℕ, zero, suc, ◌*◌, ◌≤◌, ◌≡◌, refl, true, false, Option, none, some, List, [], ◌∷◌, arith,
}
use stair_platform.Scheduler.{
  Event, State, waiting, ended, acquire, check, finish, move, cancel, act, act_at, step_at, step,
  run, sequential, execute, first_failure, all_ended, start, waiting_tasks,
}
use stair_platform.Scheduler.Slots.{busy}
use stair_platform.Scheduler.Result.{NeverCancelled, execute-sequential, execute-none}
use stair_platform.Scheduler.Progress.{moves, CanEnd, run_ends}

abbrev failing : ℕ → Option ℕ
failing zero = none
failing (suc zero) = some 7
failing (suc (suc n)) = some 9

-- The third task returns before the second.
abbrev interleaved : List Event
interleaved =
    move acquire 2
    ∷ move acquire 0
    ∷ move check 2
    ∷ move finish 2
    ∷ move acquire 1
    ∷ move check 0
    ∷ move check 1
    ∷ move finish 1
    ∷ move finish 0
    ∷ []

abbrev first_error_found : Option ℕ
first_error_found = some 7

execute_interleaved : execute 2 failing 5 false 3 interleaved ≡ some (some 7)
unfolding execute run step step_at act_at act start waiting_tasks all_ended first_failure sequential
execute_interleaved = refl

execute-sequential_example : first_error_found ≡ sequential failing 0 3
unfolding NeverCancelled
execute-sequential_example =
    execute-sequential 2 failing 5 3 interleaved first_error_found tt execute_interleaved

abbrev fine : ℕ → Option ℕ
fine n = none

execute_fine : execute 2 fine 5 false 3 interleaved ≡ some none
unfolding execute run step step_at act_at act start waiting_tasks all_ended first_failure sequential
execute_fine = refl

execute-none_example : fine 2 ≡ none
execute-none_example = execute-none 2 fine 5 3 2 interleaved execute_fine (omega arith)

abbrev begun : List Event
begun = move acquire 2 ∷ cancel ∷ move check 2 ∷ []

abbrev after_begun : State ℕ
after_begun = record { tasks = waiting ∷ waiting ∷ ended (some 5) ∷ []; held = 0; cancelled = true }

run-begun : run 2 failing 5 begun (start 3) ≡ some after_begun
unfolding run step step_at act_at act start waiting_tasks
run-begun = refl

run_ends_example :
    (moves begun ≤ 3 * 3) × (busy after_begun.tasks ≤ 2) × CanEnd 2 failing 5 after_begun
run_ends_example = run_ends 2 failing 5 3 begun after_begun (omega arith) run-begun
