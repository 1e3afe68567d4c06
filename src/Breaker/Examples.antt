-- ===== src/Breaker/Examples.antt =====
-- Runs of the breaker, and its theorems at concrete inputs.
use stair_platform.Prelude.{ℕ, ◌≡◌, refl, none, some, List, [], ◌∷◌, ◌++◌, ◌≤◌, arith}
use stair_platform.Breaker.{
  closed, opened, half_open, callee, CircuitBreaker, Call, new, record_result, allow_request,
  current_state, default_settings,
}
use stair_platform.Breaker.Invariant.{Inv}
use stair_platform.Breaker.Recovery.{
  Op, allow, record_at, let_through, let_through_since, step, run, run-Inv, execute_all,
  execute_all-recovers, execute_all-stuck,
}

abbrev failing : List Op
failing =
    record_at 10 (some (callee "timeout"))
    ∷ record_at 11 (some (callee "timeout"))
    ∷ record_at 12 (some (callee "timeout"))
    ∷ record_at 13 (some (callee "timeout"))
    ∷ record_at 14 (some (callee "timeout"))
    ∷ []

abbrev tripped : CircuitBreaker
tripped = record {
  settings = default_settings;
  state = opened;
  failure_count = 5;
  success_count = 0;
  last_failure_time = 14;
  half_open_requests = 0;
  changes = (closed, opened) ∷ [];
}

run_trips : run failing (new default_settings) ≡ tripped
unfolding run step new record_result
run_trips = refl

-- Four requests after the timeout: three are let through.
abbrev probing : List Op
probing =
    failing
    ++ allow 40_000_000_000
      ∷ allow 40_000_000_001
      ∷ allow 40_000_000_002
      ∷ allow 40_000_000_003
      ∷ []

three_let_through : let_through_since probing (new default_settings) 0 ≡ 3
unfolding let_through_since let_through step new record_result allow_request current_state
three_let_through = refl

run-Inv_example :
    Inv (run probing (new default_settings))
    × ((run probing (new default_settings)).state ≡ half_open
        → let_through_since probing (new default_settings) 0 ≤ 3)
run-Inv_example = run-Inv default_settings probing

abbrev call_at : ℕ → Call
call_at t = record { start = t; finish = t; outcome = none }

execute_all-recovers_example :
    ((execute_all (call_at 40_000_000_000 ∷ call_at 5 ∷ call_at 6 ∷ []) tripped).state ≡ closed)
    × ((execute_all (call_at 40_000_000_000 ∷ call_at 5 ∷ call_at 6 ∷ []) tripped).failure_count
        ≡ 0)
execute_all-recovers_example =
    execute_all-recovers (call_at 40_000_000_000) (call_at 5 ∷ call_at 6 ∷ []) tripped refl
      (omega arith) (refl, (refl, (refl, tt))) refl (omega arith)

-- One request allowed in half-open, two successes wanted.
abbrev narrow : CircuitBreaker
narrow = record tripped {
  settings = record default_settings { success_threshold = 2; max_requests = 1 };
  state = half_open;
}

execute_all-stuck_example : (execute_all (call_at 30 ∷ call_at 40 ∷ []) narrow).state ≡ half_open
execute_all-stuck_example =
    execute_all-stuck (call_at 30 ∷ call_at 40 ∷ []) narrow (refl, (refl, tt)) refl (omega arith)
      (omega arith) (omega arith)
