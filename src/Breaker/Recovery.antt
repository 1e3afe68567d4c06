-- ===== src/Breaker/Recovery.antt =====
-- Any interleaving of the breaker's methods, and how a breaker blocks and recovers.
use stair_platform.Prelude.{
  ℕ, zero, suc, ◌+◌, ◌≤◌, ◌<◌, ◌≡◌, refl, ap, ◌∙◌, ◌⊎◌, inl, inr, Option, none, some, List, [], ◌∷◌,
  arith, Option-cases, length, All, if◌then◌else◌,
}
use stair_platform.Breaker.{
  execute_with_retry, retry_loop, same_state, closed, opened, half_open, Error, circuit_open,
  Settings, CircuitBreaker, Call, new, set_state, allow_request, record_result, execute,
  current_state,
}
use stair_platform.Breaker.Invariant.{
  Inv, new-Inv, check_state_transition-Inv, allow_request-Inv, record_result-Inv,
}

-- A method as other goroutines see it: the protected operation runs between an `allow` and a
-- `record`, with the mutex free.
pub data Op : Type 0 where
  allow : ℕ → Op
  record_at : ℕ → Option Error → Op
  query : ℕ → Op

unfoldable pub step : Op → CircuitBreaker → CircuitBreaker
step (allow now) cb = (allow_request now cb).0
step (record_at now e) cb = record_result now e cb
step (query now) cb = (current_state now cb).0

unfoldable pub run : List Op → CircuitBreaker → CircuitBreaker
run [] cb = cb
run (op ∷ ops) cb = run ops (step op cb)

step-Inv : (op : Op) (cb : CircuitBreaker) → Inv cb → Inv (step op cb)
unfolding step current_state
step-Inv (allow now) cb v = allow_request-Inv now cb v
step-Inv (record_at now e) cb v = record_result-Inv now e cb v
step-Inv (query now) cb v = check_state_transition-Inv now cb v

run_from-Inv : (ops : List Op) (cb : CircuitBreaker) → Inv cb → Inv (run ops cb)
unfolding run
run_from-Inv [] cb v = v
run_from-Inv (op ∷ ops) cb v = run_from-Inv ops (step op cb) (step-Inv op cb v)

-- How many requests a call lets through to a half-open breaker.
unfoldable pub let_through : Op → CircuitBreaker → ℕ
let_through (allow now) cb =
    let (cb', refused) = allow_request now cb in
    if same_state cb'.state half_open then elim refused [ none ↦ 1 | some e ↦ 0 ] else 0
let_through (record_at now e) cb = 0
let_through (query now) cb = 0

-- The requests let through since the breaker was last not half-open, over a run; `n` are those of
-- before.
unfoldable pub let_through_since : List Op → CircuitBreaker → ℕ → ℕ
let_through_since [] cb n = n
let_through_since (op ∷ ops) cb n =
    let_through_since ops (step op cb)
      (if same_state cb.state half_open then n + let_through op cb else let_through op cb)

-- The counter is the number of the requests.
abbrev Counted : CircuitBreaker → ℕ → Type 0
Counted cb n = cb.state ≡ half_open → n ≡ cb.half_open_requests

step-Counted :
    (op : Op) (cb : CircuitBreaker) (n : ℕ)
    → Inv cb
    → Counted cb n
    → Counted
        (step op cb)
        (if same_state cb.state half_open then n + let_through op cb else let_through op cb)
unfolding step let_through allow_request record_result current_state
step-Counted (allow now) cb n v h = ground arith
step-Counted (record_at now (some e)) cb n v h = ground arith
step-Counted (record_at now none) cb n v h = ground arith
step-Counted (query now) cb n v h = ground arith

settings_step : (op : Op) (cb : CircuitBreaker) → (step op cb).settings ≡ cb.settings
unfolding step allow_request record_result current_state
settings_step (allow now) cb = ground arith
settings_step (record_at now (some e)) cb = ground arith
settings_step (record_at now none) cb = ground arith
settings_step (query now) cb = ground arith

run-Counted :
    (ops : List Op) (cb : CircuitBreaker) (n : ℕ)
    → Inv cb
    → Counted cb n
    → Counted (run ops cb) (let_through_since ops cb n) × ((run ops cb).settings ≡ cb.settings)
unfolding run let_through_since
run-Counted [] cb n v h = (h, refl)
run-Counted (op ∷ ops) cb n v h =
    let (counted, same) =
      run-Counted ops (step op cb)
        (if same_state cb.state half_open then n + let_through op cb else let_through op cb)
        (step-Inv op cb v) (step-Counted op cb n v h) in
    (counted, same ∙ settings_step op cb)

-- After any interleaving of `allowRequest`, `recordResult` and `State` a new breaker that is
-- half-open has let at most `MaxRequests` requests through since it became so. Any such breaker
-- counts no successes while open, is closed only below the failure threshold and half-open only
-- below the success threshold (a threshold of 0 apart), and every change of state it reported is an
-- edge of closed → open → half-open → closed or open, each from the state that the one before it
-- reached.
pub run-Inv :
    (s : Settings) (ops : List Op)
    → Inv (run ops (new s))
      × ((run ops (new s)).state ≡ half_open → let_through_since ops (new s) 0 ≤ s.max_requests)
unfolding new
run-Inv s ops =
    let v = run_from-Inv ops (new s) (new-Inv s) in
    let (counted, same) = run-Counted ops (new s) 0 (new-Inv s) (λ h. ground (arith, h)) in
    (v, λ h. omega (arith, counted h, v.admitted, ap (λ (t : Settings). t.max_requests) same))

-- An open breaker whose timeout has not passed refuses the request: the operation's outcome and
-- its time of return have no influence, and nothing of the breaker changes.
pub execute-opened :
    (c : Call) (cb : CircuitBreaker)
    → cb.state ≡ opened
    → c.start ≤ cb.last_failure_time + cb.settings.timeout
    → execute c cb ≡ (cb, some circuit_open)
unfolding execute allow_request
execute-opened c cb o h = ground arith

abbrev pub Succeeds : Call → Type 0
Succeeds c = c.outcome ≡ none

unfoldable pub execute_all : List Call → CircuitBreaker → CircuitBreaker
execute_all [] cb = cb
execute_all (c ∷ cs) cb = execute_all cs (execute c cb).0

-- One success while half-open, short of the threshold, and the one that reaches it.
execute_probe :
    (c : Call) (cb : CircuitBreaker)
    → Succeeds c
    → cb.state ≡ half_open
    → cb.half_open_requests < cb.settings.max_requests
    → cb.success_count + 1 < cb.settings.success_threshold
    → (execute c cb).0 ≡ record cb {
      half_open_requests = cb.half_open_requests + 1;
      success_count = cb.success_count + 1;
    }
unfolding execute allow_request record_result
execute_probe c cb s h r t = ground arith

execute_last_probe :
    (c : Call) (cb : CircuitBreaker)
    → Succeeds c
    → cb.state ≡ half_open
    → cb.half_open_requests < cb.settings.max_requests
    → cb.settings.success_threshold ≤ cb.success_count + 1
    → ((execute c cb).0.state ≡ closed) × ((execute c cb).0.failure_count ≡ 0)
unfolding execute allow_request record_result
execute_last_probe c cb s h r t = ground arith

execute_first_probe :
    (c : Call) (cb : CircuitBreaker)
    → cb.state ≡ opened
    → cb.last_failure_time + cb.settings.timeout < c.start
    → execute c cb ≡ execute c (set_state half_open cb)
unfolding execute allow_request set_state
execute_first_probe c cb o h = ground arith

probes :
    (c : Call) (cs : List Call) (cb : CircuitBreaker)
    → All Succeeds (c ∷ cs)
    → cb.state ≡ half_open
    → cb.success_count + length (c ∷ cs) ≡ cb.settings.success_threshold
    → cb.half_open_requests + length (c ∷ cs) ≤ cb.settings.max_requests
    → ((execute_all (c ∷ cs) cb).state ≡ closed) × ((execute_all (c ∷ cs) cb).failure_count ≡ 0)
unfolding execute_all
probes c [] cb a h t r = execute_last_probe c cb a.0 h (omega arith) (omega arith)
probes c (d ∷ cs) cb a h t r =
    rw (execute_probe c cb a.0 h (omega arith) (omega arith), execute_all)
      (probes d cs _ a.1 h (omega arith) (omega arith))

-- Once the timeout of an open breaker has passed, as many successful calls in a row as
-- `SuccessThreshold` close it and clear its failures, if at least one call is made and at least
-- that many half-open requests are allowed. The first call starts after the timeout; the
-- others may start at any time.
pub execute_all-recovers :
    (c : Call) (cs : List Call) (cb : CircuitBreaker)
    → cb.state ≡ opened
    → cb.last_failure_time + cb.settings.timeout < c.start
    → All Succeeds (c ∷ cs)
    → length (c ∷ cs) ≡ cb.settings.success_threshold
    → cb.settings.success_threshold ≤ cb.settings.max_requests
    → ((execute_all (c ∷ cs) cb).state ≡ closed) × ((execute_all (c ∷ cs) cb).failure_count ≡ 0)
unfolding execute_all set_state
execute_all-recovers c cs cb o h a t r =
    rw (execute_first_probe c cb o h, execute_all)
      (probes c cs (set_state half_open cb) a (ground arith) (ground arith) (ground arith))

execute_stuck :
    (c : Call) (cb : CircuitBreaker)
    → Succeeds c
    → cb.state ≡ half_open
    → cb.success_count ≤ cb.half_open_requests
    → cb.half_open_requests ≤ cb.settings.max_requests
    → cb.settings.max_requests < cb.settings.success_threshold
    → let cb' = (execute c cb).0 in
      (cb'.state ≡ half_open)
      × (cb'.success_count ≤ cb'.half_open_requests)
      × (cb'.half_open_requests ≤ cb'.settings.max_requests)
      × (cb'.settings.max_requests < cb'.settings.success_threshold)
unfolding execute allow_request record_result
execute_stuck c cb s h a b m = ground arith

-- A breaker that allows fewer half-open requests than it wants successes never closes again: from
-- half-open, with no more successes counted than requests admitted, it is still half-open after
-- any number of calls that all succeed.
pub execute_all-stuck :
    (cs : List Call) (cb : CircuitBreaker)
    → All Succeeds cs
    → cb.state ≡ half_open
    → cb.success_count ≤ cb.half_open_requests
    → cb.half_open_requests ≤ cb.settings.max_requests
    → cb.settings.max_requests < cb.settings.success_threshold
    → (execute_all cs cb).state ≡ half_open
unfolding execute_all
execute_all-stuck [] cb a h x y m = h
execute_all-stuck (c ∷ cs) cb a h x y m =
    let (h', x', y', m') = execute_stuck c cb a.0 h x y m in
    execute_all-stuck cs (execute c cb).0 a.1 h' x' y' m'

execute-none : (c : Call) (cb : CircuitBreaker) → (execute c cb).1 ≡ none → c.outcome ≡ none
unfolding execute
execute-none c cb h = ground arith

abbrev Answered : (ℕ → Call) → ℕ → ℕ → Type 0
Answered calls i n = (j : ℕ) × (i ≤ j) × (j < n) × ((calls j).outcome ≡ none)

later : (calls : ℕ → Call) (i n m : ℕ) → Answered calls (i + 1) n → n ≡ m → Answered calls i m
later calls i n m (j, a, b, c) e = (j, omega arith, omega arith, c)

retry_loop-none :
    (calls : ℕ → Call) (max rounds i : ℕ) (last : Option Error) (cb : CircuitBreaker)
    → (retry_loop calls max rounds i last cb).1 ≡ none
    → (last ≡ none) × (rounds ≡ 0) ⊎ Answered calls i (i + rounds)
unfolding retry_loop
retry_loop-none calls max zero i last cb h = inl (h, refl)
retry_loop-none calls max (suc rounds) i last cb h = elim (Option-cases (execute (calls i) cb).1) [
  | inl e ↦ inr (i, omega arith, omega arith, execute-none (calls i) cb e)
  | inr (e, p) ↦
      let ih : (retry_loop calls max rounds (i + 1) (some e) (execute (calls i) cb).0).1 ≡ none =
        ground arith in
      elim (retry_loop-none calls max rounds (i + 1) (some e) (execute (calls i) cb).0 ih) [
        | inl (q, _) ↦ absurd (ground arith)
        | inr found ↦ inr (later calls i (i + 1 + rounds) (i + suc rounds) found (omega arith))
      ]
]

-- `ExecuteWithRetry` reports success only if one of its at most `maxRetries + 1` attempts met an
-- operation that succeeds.
pub execute_with_retry-none :
    (calls : ℕ → Call) (max_retries : ℕ) (cb : CircuitBreaker)
    → (execute_with_retry calls max_retries cb).1 ≡ none
    → (j : ℕ) × (j ≤ max_retries) × ((calls j).outcome ≡ none)
unfolding execute_with_retry
execute_with_retry-none calls max_retries cb h =
    elim (retry_loop-none calls max_retries (suc max_retries) 0 none cb h) [
      | inl (_, e) ↦ absurd (omega arith)
      | inr (j, _, b, c) ↦ (j, omega arith, c)
    ]
