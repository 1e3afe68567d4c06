-- ===== src/Pricing/Engine.antt =====
-- internal/engine/pricing/pricing.go: the calculation of a price. The engineering quantities are
-- floats, an interface `Float`. A catalogue's price and the validation of the dataset are
-- arguments.
use stair_platform.Prelude.{
  String, Bool, true, false, not, ◌||◌, Option, none, some, List, [], ◌∷◌, ◌++◌, if◌then◌else◌,
  lookup, pos, first_error, Float,
}
use stair_platform.Pricing.Money.{Money, Rate, plus, minus, mul_rate, rate_valid}
use stair_platform.Pricing.Breakdown.{
  CostCategory, material, machine, labor, overhead, margin, discount, tax, Currency, CostComponent,
  PriceBreakdown, PriceError, currency_guards, is_negative, validate, no_dataset, bad_dataset,
  no_material_prices, negative_price, negative_hourly_rate, negative_rate, no_price, no_part_area,
}
use Prim.Native.String.{◌++◌ as concat}

pub record Rates : Type 0 where
  pub currency : Currency
  pub material : List (String × Money)
  pub machine_per_hour : Money
  pub labor_per_hour : Money
  pub overhead_percent : Rate
  pub margin_percent : Rate
  pub discount_percent : Rate
  pub tax_percent : Rate

unfoldable pub price_guards : List (String × Money) → List (Bool × PriceError)
price_guards [] = []
price_guards ((_, p) ∷ ps) = (is_negative p, negative_price) ∷ price_guards ps

abbrev pub no_prices : List (String × Money) → Bool
no_prices [] = true
no_prices (_ ∷ _) = false

unfoldable pub rates_validate : Rates → Option PriceError
rates_validate r = first_error (
    currency_guards r.currency
    ++ ((no_prices r.material, no_material_prices)
        ∷ (price_guards r.material
            ++ ((
              is_negative r.machine_per_hour || is_negative r.labor_per_hour,
              negative_hourly_rate,
            )
                ∷ (not (rate_valid r.overhead_percent), negative_rate)
                ∷ (not (rate_valid r.margin_percent), negative_rate)
                ∷ (not (rate_valid r.discount_percent), negative_rate)
                ∷ (not (rate_valid r.tax_percent), negative_rate)
                ∷ []))))

pub data Priced (A : Type 0) : Type 0 where
  ok : A → Priced A
  fail : PriceError → Priced A

unfoldable pub line : String → CostCategory → Money → String → CostComponent
line name category amount source = record {
  name = name;
  category = category;
  amount = amount;
  source = source;
}

-- Everything of `Price` after the costs of material, machine and labor: `lines` are the material
-- lines.
unfoldable pub complete : Rates → Money → Money → Money → List CostComponent → PriceBreakdown
unfolding line
complete rates mat mach lab lines =
    let base = plus (plus mat mach) lab in
    let over = mul_rate base rates.overhead_percent in
    let production = plus base over in
    let marg = mul_rate production rates.margin_percent in
    let gross = plus production marg in
    let disc = mul_rate gross rates.discount_percent in
    let pre = minus gross disc in
    let tx = mul_rate pre rates.tax_percent in
    record {
      currency = rates.currency;
      material = mat;
      machine = mach;
      labor = lab;
      overhead = over;
      production_cost = production;
      margin = marg;
      discount = disc;
      pre_tax = pre;
      tax = tx;
      final_price = plus pre tx;
      lines =
          lines
          ++ line "Machine time" machine mach "machine:laser-cutting"
            ∷ line "Labor time" labor lab "labor:manual-finishing"
            ∷ line "Overhead" overhead over "overhead:rate"
            ∷ line "Margin" margin marg "margin:rate"
            ∷ line "Discount" discount disc "discount:rate"
            ∷ line "Tax" tax tx "tax:rate"
            ∷ [];
    }

module _ (F : Float) where
  open F use {
    Carrier, of_int, lt, eq, is_nan, is_inf, plus as fplus, times, over, half, floor, to_int64,
  }

  -- `x <= 0 || IsNaN(x) || IsInf(x)`
  unfoldable pub unusable : Carrier → Bool
  unusable x = (lt x (of_int (pos 0)) || eq x (of_int (pos 0))) || is_nan x || is_inf x

  unfoldable pub money_from_quantity : Carrier → Money → Money
  money_from_quantity quantity unit_price =
      if unusable quantity
      then pos 0
      else to_int64 (floor (fplus (times quantity (of_int unit_price)) half))

  unfoldable pub money_from_minutes : Carrier → Money → Money
  money_from_minutes minutes per_hour =
      if unusable minutes
      then pos 0
      else to_int64 (floor (fplus (over (times minutes (of_int per_hour)) (of_int (pos 60))) half))

  pub record MaterialConsumption : Type 0 where
    pub material_code : String
    pub mass : Carrier
    pub sheet_area : Carrier
    pub part_area : Carrier

  pub record CostDataset : Type 0 where
    pub material_consumption : List MaterialConsumption
    pub estimated_machine_time : Carrier
    pub estimated_labor_time : Carrier

  -- The loop over the material consumption: the total so far and the lines so far.
  unfoldable pub material_lines :
      Rates
      → List MaterialConsumption
      → Money
      → List CostComponent
      → Priced (Money × List CostComponent)
  material_lines rates [] total lines = ok (total, lines)
  material_lines rates (c ∷ cs) total lines = elim (lookup c.material_code rates.material) [
    | none ↦ fail no_price
    | some price ↦
        if lt c.part_area (of_int (pos 0)) || eq c.part_area (of_int (pos 0))
        then fail no_part_area
        else material_lines rates cs
            (plus total (money_from_quantity (times c.mass (over c.sheet_area c.part_area)) price))
            (lines
              ++ line (concat "Material " c.material_code) material
                  (money_from_quantity (times c.mass (over c.sheet_area c.part_area)) price)
                  (concat "material:" c.material_code)
                ∷ [])
  ]

  -- `valid` is `ds.Validate() == nil`; `none` for the dataset is nil.
  unfoldable pub price : (CostDataset → Bool) → Option CostDataset → Rates → Priced PriceBreakdown
  price valid none rates = fail no_dataset
  price valid (some ds) rates =
      if not (valid ds) then fail bad_dataset else elim (rates_validate rates) [
        | some e ↦ fail e
        | none ↦ elim (material_lines rates ds.material_consumption (pos 0) []) [
          | fail e ↦ fail e
          | ok (mat, lines) ↦
              let b =
                complete rates mat
                  (money_from_minutes ds.estimated_machine_time rates.machine_per_hour)
                  (money_from_minutes ds.estimated_labor_time rates.labor_per_hour) lines in
              elim (validate b) [ some e ↦ fail e | none ↦ ok b ]
        ]
      ]
