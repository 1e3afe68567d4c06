-- ===== src/RateLimit/Examples.antt =====
-- A run of the limiter.
use stair_platform.Prelude.{◌≤◌, ◌≡◌, refl, List, [], ◌∷◌, arith}
use stair_platform.RateLimit.{new_rate_limiter, allow_with_info}
use stair_platform.RateLimit.Window.{Call, run, in_window, allow_with_info-bounded}

abbrev calls : List Call
calls = ("a", 10) ∷ ("b", 11) ∷ ("a", 12) ∷ ("a", 13) ∷ ("a", 25) ∷ []

run_example : (run "a" calls (new_rate_limiter 2 10) []).1 ≡ 10 ∷ 12 ∷ 25 ∷ []
unfolding run allow_with_info new_rate_limiter
run_example = refl

allow_with_info-bounded_example : in_window 10 25 (run "a" calls (new_rate_limiter 2 10) []).1 ≤ 2
allow_with_info-bounded_example =
    allow_with_info-bounded "a" 2 10 calls 25 (omega arith) (omega arith)
