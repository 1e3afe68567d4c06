-- ===== src/Pricing/Money/Rounding.antt =====
-- `MulRate` against exact arithmetic.
use stair_platform.Prelude.{ℕ, ◌+◌, ◌*◌, ◌/◌, ◌^◌, ◌≤◌, ◌<◌, ◌≡◌, refl, arith, pos, ◌+ℤ◌, ◌*ℤ◌}
use stair_platform.Pricing.Money.{int64, mul_rate, quo_scale, rate_scale}

int64_small : (n : ℕ) → n < 2 ^ 63 → int64 (pos n) ≡ pos n
unfolding int64
int64_small n h = ground arith

times_pos : (m r : ℕ) → pos m *ℤ pos r ≡ pos (m * r)
unfolding ◌*ℤ◌
times_pos m r = ground arith

plus_pos : (m r : ℕ) → pos m +ℤ pos r ≡ pos (m + r)
unfolding ◌+ℤ◌
plus_pos m r = ground arith

mul_rate_pos :
    (m r n : ℕ)
    → m * r ≡ n
    → n + 50000 < 2 ^ 63
    → mul_rate (pos m) (pos r) ≡ pos ((n + 50000) / rate_scale)
unfolding mul_rate quo_scale
mul_rate_pos m r n e h =
    ground (arith, times_pos m r, int64_small n, plus_pos n 50000, int64_small (n + 50000))

-- `MulRate` of an amount and a rate that are not negative, whose product lies more than half the
-- scale below 2^63, is the product divided by the scale and rounded half up: it is at most half a
-- minor unit above the exact share and less than half a one below it.
pub mul_rate_rounds :
    (m r : ℕ)
    → m * r + 50000 < 2 ^ 63
    → (q : ℕ) × (mul_rate (pos m) (pos r) ≡ pos q)
      × (2 * (rate_scale * q) ≤ 2 * (m * r) + rate_scale)
      × (2 * (m * r) < 2 * (rate_scale * q) + rate_scale)
mul_rate_rounds m r h =
    ((m * r + 50000) / rate_scale, mul_rate_pos m r (m * r) refl h, omega arith, omega arith)
