-- ===== src/Pricing/Extended/Examples.antt =====
-- A project of one material and a finishing without a price.
use stair_platform.Prelude.{
  String, ◌≡◌, refl, [], ◌∷◌, contains, ℤ, pos, ◌+ℤ◌, ◌-ℤ◌, ◌*ℤ◌, first_error, whole,
}
use stair_platform.Pricing.Money.{mul_rate, plus, minus, int64, of_bits, quo_scale, rate_valid}
use stair_platform.Pricing.Breakdown.{
  PriceBreakdown, currency_guards, any_negative, amounts, chain_guards, add_total, line_guards,
  all_line_guards, totals, want, total_guards, header_guards, validate,
}
use stair_platform.Pricing.Engine.{line}
use stair_platform.Pricing.Extended.{
  FinishingCost, ProjectPricing, first_bad, finishing_valid, finishing_error, material_error,
  operation_error, no_items, items_error, project_error,
}
use stair_platform.Pricing.Extended.Calculation.{
  calculated, sum_of, material_line, operation_line, finishing_line, rate_lines, item_lines,
  breakdown_of, calculate_breakdown,
}
use stair_platform.Pricing.Extended.Finishing.{calculate_breakdown-finishings}

abbrev print_int : ℤ → String
print_int n = "1"

abbrev painted : ProjectPricing whole
painted = record {
  project_id = "p1";
  currency = record { code = "EUR"; decimals = pos 2 };
  materials =
      record {
        part_number = "m1";
        material_name = "oak";
        volume = pos 2;
        density = pos 3;
        price_per_kg = pos 5;
        total_cost = pos 30;
      }
      ∷ [];
  operations = [];
  finishings =
      record {
        type = "painting";
        area = pos 4;
        unit_price = pos 0;
        total_price = pos 0;
        description = "";
      }
      ∷ [];
  overhead_rate = pos 10000;
  margin_rate = pos 10000;
  discount_rate = pos 0;
  tax_rate = pos 20000;
}

abbrev painted_breakdown : PriceBreakdown
painted_breakdown = breakdown_of whole print_int print_int print_int painted

painted_priced :
    calculate_breakdown whole print_int print_int print_int painted ≡ calculated painted_breakdown
unfolding calculate_breakdown project_error items_error no_items first_bad finishing_error
    material_error operation_error finishing_valid contains first_error currency_guards ◌*ℤ◌
    validate header_guards any_negative amounts chain_guards all_line_guards line_guards totals
    total_guards want add_total breakdown_of item_lines material_line operation_line finishing_line
    rate_lines line sum_of mul_rate plus minus int64 of_bits quo_scale ◌+ℤ◌ ◌-ℤ◌ rate_valid
painted_priced = refl

calculate_breakdown-finishings_example :
    sum_of (λ (c : FinishingCost whole). c.total_price) painted.finishings (pos 0) ≡ pos 0
calculate_breakdown-finishings_example =
    calculate_breakdown-finishings whole print_int print_int print_int painted painted_breakdown
      painted_priced
