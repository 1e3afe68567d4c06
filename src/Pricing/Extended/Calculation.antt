-- ===== src/Pricing/Extended/Calculation.antt =====
-- `CalculateBreakdown` of internal/domain/pricing/extended.go.
use stair_platform.Prelude.{
  String, none, some, List, [], ◌∷◌, ◌++◌, map, if◌then◌else◌, ℤ, pos, ltb_ℤ, Float,
}
use stair_platform.Pricing.Money.{Money, Rate, plus, minus, mul_rate}
use stair_platform.Pricing.Breakdown.{
  material, machine, labor, overhead, margin, discount, tax, CostComponent, PriceBreakdown,
}
use stair_platform.Pricing.Breakdown as breakdowns
use stair_platform.Pricing.Engine.{line}
use stair_platform.Pricing.Extended.{
  FinishingCost, OperationCost, MaterialCost, ProjectPricing, ProjectError, project_error,
  breakdown_invalid,
}
use Prim.Native.String.{◌++◌ as concat}

-- What CalculateBreakdown returns.
pub data Calculated : Type 0 where
  calculated : PriceBreakdown → Calculated
  refused : ProjectError → Calculated

-- `total = total.Add(amount)` over the items.
unfoldable pub sum_of : {A : Type 0} → (A → Money) → List A → Money → Money
sum_of amount [] total = total
sum_of amount (a ∷ rest) total = sum_of amount rest (plus total (amount a))

-- `print_int` is `%d`, `print_area` is `%.0f` and `print_percent` is `%.2f` of a rate's Percent.
module _ (f : Float) (print_int : ℤ → String) (print_area : f.Carrier → String)
    (print_percent : Rate → String) where
  unfoldable pub material_line : MaterialCost f → CostComponent
  unfolding line
  material_line m =
      line (concat "Material: " (concat m.part_number (concat " (" (concat m.material_name ")"))))
        material m.total_cost
        (concat "part:" (concat m.part_number (concat ",material:" m.material_name)))

  unfoldable pub operation_line : OperationCost f → CostComponent
  unfolding line
  operation_line o =
      line
        (concat "Operation: " (concat o.operation_type (concat " (" (concat o.machine_type ")"))))
        machine o.total_cost
        (concat "op:" (
          concat (print_int o.operation_id)
            (concat ",type:" (concat o.operation_type (concat ",machine:" o.machine_type)))))

  unfoldable pub finishing_line : FinishingCost f → CostComponent
  unfolding line
  finishing_line c =
      line (concat "Finishing: " c.type) labor c.total_price
        (concat "finishing:" (concat c.type (concat ",area:" (print_area c.area))))

  abbrev pub rate_source : Rate → String
  rate_source r = concat "rate:" (concat (print_percent r) "%")

  -- The lines after those of the items; a discount and a tax have one only if there is any.
  unfoldable pub rate_lines : ProjectPricing f → Money → Money → Money → Money → List CostComponent
  unfolding line
  rate_lines p over marg disc tx =
      let tax_lines =
        if ltb_ℤ (pos 0) tx then line "Tax" tax tx (rate_source p.tax_rate) ∷ [] else [] in
      line "Overhead" overhead over (rate_source p.overhead_rate)
      ∷ line "Margin" margin marg (rate_source p.margin_rate)
      ∷ (if ltb_ℤ (pos 0) disc
          then line "Discount" discount disc (rate_source p.discount_rate) ∷ tax_lines
          else tax_lines)

  unfoldable pub item_lines : ProjectPricing f → List CostComponent
  unfolding material_line operation_line finishing_line
  item_lines p =
      map material_line p.materials
      ++ (map operation_line p.operations ++ map finishing_line p.finishings)

  unfoldable pub breakdown_of : ProjectPricing f → PriceBreakdown
  unfolding sum_of rate_lines item_lines
  breakdown_of p =
      let mat = sum_of (λ (m : MaterialCost f). m.total_cost) p.materials (pos 0) in
      let mach = sum_of (λ (o : OperationCost f). o.total_cost) p.operations (pos 0) in
      let base = plus (plus mat mach) (pos 0) in
      let over = mul_rate base p.overhead_rate in
      let production = plus base over in
      let marg = mul_rate production p.margin_rate in
      let gross = plus production marg in
      let disc = mul_rate gross p.discount_rate in
      let pre = minus gross disc in
      let tx = mul_rate pre p.tax_rate in
      record {
        currency = p.currency;
        material = mat;
        machine = mach;
        labor = pos 0;
        overhead = over;
        production_cost = production;
        margin = marg;
        discount = disc;
        pre_tax = pre;
        tax = tx;
        final_price = plus pre tx;
        lines = item_lines p ++ rate_lines p over marg disc tx;
      }

  unfoldable pub calculate_breakdown : ProjectPricing f → Calculated
  unfolding breakdown_of
  calculate_breakdown p = elim (project_error f p) [
    | some e ↦ refused e
    | none ↦ elim (breakdowns.validate (breakdown_of p)) [
      | some e ↦ refused (breakdown_invalid e)
      | none ↦ calculated (breakdown_of p)
    ]
  ]
