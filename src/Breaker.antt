-- ===== src/Breaker.antt =====
-- internal/infrastructure/circuitbreaker/breaker.go: the circuit breaker. Each method holds the
-- mutex for its whole body, so it is one function from the old record to the new one; what the
-- clock reads during the call is its argument `now`. Times are nanoseconds.
mod Invariant
mod Recovery
mod Examples
use stair_platform.Prelude.{
  ℕ, zero, suc, ◌+◌, String, Bool, true, false, not, ◌&&◌, Option, none, some, List, [], ◌∷◌, ltb,
  leb, if◌then◌else◌,
}

pub data State : Type 0 where
  closed opened half_open : State

-- `callee` is an error of the protected operation itself.
pub data Error : Type 0 where
  circuit_open too_many_requests : Error
  callee : String → Error

-- The counters never fall below 0, so a negative setting acts as 0.
pub record Settings : Type 0 where
  pub failure_threshold : ℕ
  pub success_threshold : ℕ
  pub timeout : ℕ
  pub max_requests : ℕ

abbrev pub default_settings : Settings
default_settings = record {
  failure_threshold = 5;
  success_threshold = 3;
  timeout = 30_000_000_000;
  max_requests = 3;
}

-- `changes` are the calls of `onStateChange` (and of the transition counter), newest first.
pub record CircuitBreaker : Type 0 where
  pub settings : Settings
  pub state : State
  pub failure_count : ℕ
  pub success_count : ℕ
  pub last_failure_time : ℕ
  pub half_open_requests : ℕ
  pub changes : List (State × State)

unfoldable pub new : Settings → CircuitBreaker
new settings = record {
  settings = settings;
  state = closed;
  failure_count = 0;
  success_count = 0;
  last_failure_time = 0;
  half_open_requests = 0;
  changes = [];
}

-- `cb.state == newState`
abbrev pub same_state : State → State → Bool
same_state closed closed = true
same_state opened opened = true
same_state half_open half_open = true
same_state _ _ = false

-- The `switch newState` of `setState`.
abbrev reset_counters : State → CircuitBreaker → CircuitBreaker
reset_counters closed cb = record cb {
  failure_count = 0;
  success_count = 0;
  half_open_requests = 0;
}
reset_counters opened cb = record cb { success_count = 0; half_open_requests = 0 }
reset_counters half_open cb = record cb { success_count = 0; half_open_requests = 0 }

unfoldable pub set_state : State → CircuitBreaker → CircuitBreaker
set_state new_state cb =
    if same_state cb.state new_state
    then cb
    else reset_counters new_state
        (record cb { state = new_state; changes = (cb.state, new_state) ∷ cb.changes })

-- `time.Since(lastFailureTime) > timeout`, with the subtraction moved to the other side.
unfoldable pub check_state_transition : ℕ → CircuitBreaker → CircuitBreaker
unfolding set_state
check_state_transition now cb =
    if same_state cb.state opened && ltb (cb.last_failure_time + cb.settings.timeout) now
    then set_state half_open cb
    else cb

-- The `switch cb.state` of `allowRequest`.
admit : State → CircuitBreaker → CircuitBreaker × Option Error
admit closed cb = (cb, none)
admit opened cb = (cb, some circuit_open)
admit half_open cb =
    if ltb cb.half_open_requests cb.settings.max_requests
    then (record cb { half_open_requests = cb.half_open_requests + 1 }, none)
    else (cb, some too_many_requests)

unfoldable pub allow_request : ℕ → CircuitBreaker → CircuitBreaker × Option Error
unfolding check_state_transition admit
allow_request now cb = let cb' = check_state_transition now cb in admit cb'.state cb'

record_failure : State → CircuitBreaker → CircuitBreaker
unfolding set_state
record_failure closed cb =
    if leb cb.settings.failure_threshold cb.failure_count then set_state opened cb else cb
record_failure half_open cb = set_state opened cb
record_failure opened cb = cb

record_success : State → CircuitBreaker → CircuitBreaker
unfolding set_state
record_success half_open cb =
    let cb' = record cb { success_count = cb.success_count + 1 } in
    if leb cb.settings.success_threshold cb'.success_count then set_state closed cb' else cb'
record_success closed cb =
    let cb' = record cb { success_count = cb.success_count + 1 } in
    if ltb cb.settings.success_threshold cb'.success_count
    then record cb' { failure_count = 0 }
    else cb'
record_success opened cb = cb

unfoldable pub record_result : ℕ → Option Error → CircuitBreaker → CircuitBreaker
unfolding record_failure record_success
record_result now (some e) cb =
    record_failure cb.state
      (record cb { failure_count = cb.failure_count + 1; last_failure_time = now })
record_result now none cb = record_success cb.state cb

-- One call of the protected operation: when it starts and ends, and what it returns.
pub record Call : Type 0 where
  pub start : ℕ
  pub finish : ℕ
  pub outcome : Option Error

unfoldable pub execute : Call → CircuitBreaker → CircuitBreaker × Option Error
execute c cb =
    let (cb', refused) = allow_request c.start cb in
    elim refused [
      | some e ↦ (cb', some e)
      | none ↦ (record_result c.finish c.outcome cb', c.outcome)
    ]

abbrev pub is_circuit_open : Error → Bool
is_circuit_open circuit_open = true
is_circuit_open _ = false

abbrev pub is_too_many_requests : Error → Bool
is_too_many_requests too_many_requests = true
is_too_many_requests _ = false

-- The loop of `ExecuteWithRetry`: `calls i` is what attempt `i` meets, after the sleeps before it.
retry_loop : (ℕ → Call) → ℕ → ℕ → ℕ → Option Error → CircuitBreaker → CircuitBreaker × Option Error
retry_loop calls max_retries zero i last_err cb = (cb, last_err)
retry_loop calls max_retries (suc rounds) i last_err cb =
    let (cb', err) = execute (calls i) cb in
    elim err [
      | none ↦ (cb', none)
      | some e ↦
          let next = retry_loop calls max_retries rounds (i + 1) (some e) cb' in
          if is_circuit_open e && ltb i max_retries
          then next
          else if is_too_many_requests e && ltb i max_retries
          then next
          else if not (is_circuit_open e) && not (is_too_many_requests e)
          then (cb', some e)
          else next
    ]

unfoldable pub execute_with_retry : (ℕ → Call) → ℕ → CircuitBreaker → CircuitBreaker × Option Error
unfolding retry_loop
execute_with_retry calls max_retries cb = retry_loop calls max_retries (suc max_retries) 0 none cb

-- `State()`
unfoldable pub current_state : ℕ → CircuitBreaker → CircuitBreaker × State
current_state now cb = let cb' = check_state_transition now cb in (cb', cb'.state)
