-- ===== src/Events/Retry.antt =====
-- internal/infrastructure/events/retry.go: the wait before an attempt. Durations are nanoseconds in
-- an int64; `attempt` is the number of attempts before, where a negative one is 0.
use stair_platform.Prelude.{ℕ, zero, suc, ◌*◌, if◌then◌else◌, ℤ, pos, ltb_ℤ, Float}

module _ (f : Float) where
  pub record RetryPolicy : Type 0 where
    pub max_attempts : ℤ
    pub min_delay : ℤ
    pub max_delay : ℤ
    pub multiplier : f.Carrier

  -- `time.Millisecond`
  abbrev pub millisecond : ℕ
  millisecond = 1000000

  unfoldable pub default_retry_policy : RetryPolicy
  default_retry_policy = record {
    max_attempts = pos 3;
    min_delay = pos (50 * millisecond);
    max_delay = pos (5000 * millisecond);
    multiplier = f.of_int (pos 2);
  }

  -- The loop that multiplies the delay.
  unfoldable pub grow : f.Carrier → ℕ → f.Carrier → f.Carrier
  grow multiplier zero delay = delay
  grow multiplier (suc n) delay = grow multiplier n (f.times delay multiplier)

  unfoldable pub backoff : RetryPolicy → ℕ → ℤ
  unfolding grow
  backoff p zero = pos 0
  backoff p (suc before) =
      let delay = f.to_int64 (grow p.multiplier before (f.of_int p.min_delay)) in
      if ltb_ℤ p.max_delay delay then p.max_delay else delay
