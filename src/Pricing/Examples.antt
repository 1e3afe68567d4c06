-- ===== src/Pricing/Examples.antt =====
-- The arithmetic of money at concrete amounts.
use stair_platform.Prelude.{
  ℕ, ◌+◌, ◌*◌, ◌≤◌, ◌<◌, ◌≡◌, refl, true, some, [], ◌∷◌, arith, lookup, pos, negsuc, ◌+ℤ◌, ◌-ℤ◌,
  ◌*ℤ◌, first_error, whole,
}
use stair_platform.Pricing.Money.{
  minus, of_bits, rate_valid, mul_rate, neg64, quo_scale, plus, rate_scale, int64,
}
use stair_platform.Pricing.Breakdown.{
  PriceBreakdown, chain_guards, any_negative, amounts, validate, header_guards, currency_guards,
  line_guards, all_line_guards, totals, total_guards, add_total, want,
}
use stair_platform.Pricing.Engine.{
  Rates, Priced, ok, fail, CostDataset, rates_validate, price_guards, complete, line,
  material_lines, price, money_from_quantity, money_from_minutes, unusable,
}
use stair_platform.Pricing.Money.Rounding.{mul_rate_rounds}

-- 12.5 % of 1.00 is 0.13, the half rounded up; the same below 0.
mul_rate_half : mul_rate (pos 100) (pos 12500) ≡ pos 13
unfolding mul_rate int64 ◌*ℤ◌ neg64 quo_scale ◌+ℤ◌
mul_rate_half = refl

mul_rate_negative : mul_rate (negsuc 99) (pos 12500) ≡ negsuc 12
unfolding mul_rate int64 ◌*ℤ◌ neg64 quo_scale ◌+ℤ◌
mul_rate_negative = refl

-- Sums wrap around.
plus_wraps : plus (pos 9223372036854775807) (pos 1) ≡ negsuc 9223372036854775807
unfolding plus int64 ◌+ℤ◌
plus_wraps = refl

mul_rate_rounds_example :
    (q : ℕ) × (mul_rate (pos 100) (pos 12500) ≡ pos q)
    × (2 * (rate_scale * q) ≤ 2 * (100 * 12500) + rate_scale)
    × (2 * (100 * 12500) < 2 * (rate_scale * q) + rate_scale)
mul_rate_rounds_example = mul_rate_rounds 100 12500 (omega arith)

abbrev rates : Rates
rates = record {
  currency = record { code = "RUB"; decimals = pos 2 };
  material = ("oak", pos 1000) ∷ [];
  machine_per_hour = pos 300;
  labor_per_hour = pos 200;
  overhead_percent = pos 10000;
  margin_percent = pos 20000;
  discount_percent = pos 5000;
  tax_percent = pos 20000;
}

abbrev dataset : CostDataset whole
dataset = record {
  material_consumption =
      record { material_code = "oak"; mass = pos 3; sheet_area = pos 2; part_area = pos 1 } ∷ [];
  estimated_machine_time = pos 2;
  estimated_labor_time = pos 4;
}

abbrev breakdown_or : PriceBreakdown → Priced PriceBreakdown → PriceBreakdown
breakdown_or b (ok b') = b'
breakdown_or b (fail _) = b

-- What the calculation returns.
abbrev quote : PriceBreakdown
quote =
    breakdown_or (complete rates (pos 0) (pos 0) (pos 0) [])
      (price whole (λ _. true) (some dataset) rates)

quote_lem : price whole (λ _. true) (some dataset) rates ≡ ok quote
unfolding price rates_validate first_error currency_guards price_guards rate_valid material_lines
    lookup validate header_guards complete any_negative amounts plus money_from_quantity unusable
    ◌*ℤ◌ money_from_minutes ◌+ℤ◌ ◌-ℤ◌ add_total all_line_guards chain_guards line_guards
    total_guards totals want line int64 minus mul_rate neg64 of_bits quo_scale
quote_lem = refl
