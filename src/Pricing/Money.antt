-- ===== src/Pricing/Money.antt =====
-- internal/domain/pricing/money.go and rate.go: amounts in minor units and rates in thousandths of
-- a percent, both int64 with Go's wrap-around.
pub mod Rounding
use stair_platform.Prelude.{
  ℕ, ◌+◌, ◌-◌, ◌/◌, ◌%◌, ◌^◌, Bool, not, ltb, if◌then◌else◌, ℤ, pos, negsuc, sub_ℕ, ◌+ℤ◌, ◌-ℤ◌,
  ◌*ℤ◌, ltb_ℤ,
}

abbrev pub word : ℕ
word = 2 ^ 64

-- The int64 with the same residue modulo 2^64: `bits` is its bit pattern.
unfoldable pub of_bits : ℕ → ℤ
of_bits bits = if ltb bits (2 ^ 63) then pos bits else negsuc (word - bits - 1)

unfoldable pub int64 : ℤ → ℤ
unfolding of_bits
int64 (pos n) = of_bits (n % word)
int64 (negsuc n) = of_bits ((word - 1) - n % word)

abbrev pub Money : Type 0
Money = ℤ

abbrev pub Rate : Type 0
Rate = ℤ

unfoldable pub plus : Money → Money → Money
unfolding int64 ◌+ℤ◌
plus m o = int64 (m +ℤ o)

unfoldable pub minus : Money → Money → Money
unfolding int64 ◌-ℤ◌
minus m o = int64 (m -ℤ o)

abbrev pub rate_scale : ℕ
rate_scale = 100000

-- Go's `/` on int64, which rounds towards 0, by the scale.
unfoldable pub quo_scale : ℤ → ℤ
quo_scale (pos n) = pos (n / rate_scale)
quo_scale (negsuc n) = sub_ℕ 0 ((n + 1) / rate_scale)

-- `-x` on int64.
unfoldable pub neg64 : ℤ → ℤ
unfolding int64 ◌-ℤ◌
neg64 x = int64 (pos 0 -ℤ x)

unfoldable pub mul_rate : Money → Rate → Money
mul_rate m r =
    let num = int64 (m *ℤ r) in
    if ltb_ℤ num (pos 0)
    then neg64 (quo_scale (int64 (neg64 num +ℤ pos (rate_scale / 2))))
    else quo_scale (int64 (num +ℤ pos (rate_scale / 2)))

unfoldable pub rate_valid : Rate → Bool
rate_valid r = not (ltb_ℤ r (pos 0))
