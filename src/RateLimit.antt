-- ===== src/RateLimit.antt =====
-- internal/infrastructure/security/ratelimit.go: the sliding-window rate limiter. A call holds the
-- mutex, so it is one step; `now` is what the clock reads. Times are nanoseconds, and
-- `t.After(now.Add(-window))` has the window on the other side. A negative limit acts as 0.
mod Window
mod Examples
use stair_platform.Prelude.{
  ℕ, ◌+◌, ◌-◌, String, Bool, true, false, Option, none, some, List, [], ◌∷◌, ◌++◌, ltb, leb,
  if◌then◌else◌, length, lookup, insert,
}

pub record RateLimiter : Type 0 where
  pub requests : List (String × List ℕ)
  pub limit : ℕ
  pub window : ℕ
  pub total : ℕ
  pub blocked : ℕ

unfoldable pub new_rate_limiter : ℕ → ℕ → RateLimiter
new_rate_limiter limit window = record {
  requests = [];
  limit = limit;
  window = window;
  total = 0;
  blocked = 0;
}

abbrev pub times_of : Option (List ℕ) → List ℕ
times_of none = []
times_of (some ts) = ts

-- The loop that keeps the requests of the current window.
unfoldable pub valid_requests : ℕ → ℕ → List ℕ → List ℕ
valid_requests window now [] = []
valid_requests window now (t ∷ ts) =
    let rest = valid_requests window now ts in if ltb now (t + window) then t ∷ rest else rest

-- The results of `AllowWithInfo`.
pub record Info : Type 0 where
  pub remaining : ℕ
  pub reset_at : ℕ
  pub allowed : Bool

unfoldable pub allow_with_info : String → ℕ → RateLimiter → RateLimiter × Info
unfolding valid_requests lookup insert
allow_with_info key now rl =
    let valid = valid_requests rl.window now (times_of (lookup key rl.requests)) in
    let remaining = rl.limit - length valid in
    if leb remaining 0
    then (
      record rl { total = rl.total + 1; blocked = rl.blocked + 1 },
      record { remaining = 0; reset_at = now + rl.window; allowed = false },
    )
    else (
      record rl { total = rl.total + 1; requests = insert key (valid ++ now ∷ []) rl.requests },
      record { remaining = remaining - 1; reset_at = now + rl.window; allowed = true },
    )

unfoldable pub allow : String → ℕ → RateLimiter → RateLimiter × Bool
allow key now rl = let (rl', info) = allow_with_info key now rl in (rl', info.allowed)

-- `Stats`
unfoldable pub stats : RateLimiter → ℕ × ℕ × ℕ
stats rl = (rl.total, rl.blocked, length rl.requests)

-- `MultiRateLimiter`
pub record MultiRateLimiter : Type 0 where
  pub limiters : List (String × RateLimiter)
  pub default_limiter : RateLimiter

unfoldable pub new_multi_rate_limiter : ℕ → ℕ → MultiRateLimiter
new_multi_rate_limiter limit window = record {
  limiters = [];
  default_limiter = new_rate_limiter limit window;
}

unfoldable pub add_endpoint : String → ℕ → ℕ → MultiRateLimiter → MultiRateLimiter
add_endpoint path limit window mrl = record mrl {
  limiters = insert path (new_rate_limiter limit window) mrl.limiters;
}

unfoldable pub get_limiter : String → MultiRateLimiter → RateLimiter
get_limiter path mrl = elim (lookup path mrl.limiters) [ some rl ↦ rl | none ↦ mrl.default_limiter ]
