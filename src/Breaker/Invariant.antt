-- ===== src/Breaker/Invariant.antt =====
-- What holds of a breaker after any interleaving of its methods.
use stair_platform.Prelude.{ℕ, ◌≤◌, ◌<◌, ◌≡◌, ◌⊎◌, Option, none, some, List, [], ◌∷◌, arith}
use stair_platform.Breaker.{
  State, closed, opened, half_open, Error, Settings, CircuitBreaker, new, check_state_transition,
  allow_request, record_result,
}

-- The edges of the state diagram.
pub data IsChange : State × State → Type 0 where
  trip : IsChange (closed, opened)
  probe : IsChange (opened, half_open)
  restore : IsChange (half_open, closed)
  relapse : IsChange (half_open, opened)

-- The newest change first, each starting where the one before it ended.
abbrev pub Chain : State → List (State × State) → Type 0
Chain s [] = s ≡ closed
Chain s ((from, to) ∷ rest) = (s ≡ to) × IsChange (from, to) × Chain from rest

pub record Inv (cb : CircuitBreaker) : Type 0 where
  pub admitted : cb.half_open_requests ≤ cb.settings.max_requests
  pub idle : cb.state ≡ opened → (cb.half_open_requests ≡ 0) × (cb.success_count ≡ 0)
  pub below_failures :
      cb.state ≡ closed
      → (cb.failure_count < cb.settings.failure_threshold) ⊎ (cb.settings.failure_threshold ≡ 0)
  pub below_successes :
      cb.state ≡ half_open
      → (cb.success_count < cb.settings.success_threshold) ⊎ (cb.settings.success_threshold ≡ 0)
  pub history : Chain cb.state cb.changes

pub new-Inv : (s : Settings) → Inv (new s)
unfolding new
new-Inv s = grind arith

pub check_state_transition-Inv :
    (now : ℕ) (cb : CircuitBreaker) → Inv cb → Inv (check_state_transition now cb)
unfolding check_state_transition
check_state_transition-Inv now cb v = grind (arith, probe)

pub allow_request-Inv : (now : ℕ) (cb : CircuitBreaker) → Inv cb → Inv (allow_request now cb).0
unfolding allow_request
allow_request-Inv now cb v = grind (arith, probe)

pub record_result-Inv :
    (now : ℕ) (e : Option Error) (cb : CircuitBreaker) → Inv cb → Inv (record_result now e cb)
unfolding record_result
record_result-Inv now (some e) cb v = grind (arith, trip, relapse)
record_result-Inv now none cb v = grind (arith, restore)
