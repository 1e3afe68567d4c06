-- ===== src/Pricing/Breakdown.antt =====
-- internal/domain/pricing/pricing.go: the price breakdown and its validation.
use stair_platform.Prelude.{
  String, Bool, true, false, not, ◌||◌, Option, List, [], ◌∷◌, ◌++◌, str_eq, ◌==◌, if◌then◌else◌, ℤ,
  pos, ltb_ℤ, eq_ℤ, first_error,
}
use stair_platform.Pricing.Money.{Money, plus, minus}
use Prim.Native.String.{len}

pub data CostCategory : Type 0 where
  material machine labor overhead margin discount tax : CostCategory
  unknown : String → CostCategory

abbrev pub category_valid : CostCategory → Bool
category_valid (unknown _) = false
category_valid _ = true

abbrev pub same_category : CostCategory → CostCategory → Bool
same_category material material = true
same_category machine machine = true
same_category labor labor = true
same_category overhead overhead = true
same_category margin margin = true
same_category discount discount = true
same_category tax tax = true
same_category (unknown a) (unknown b) = str_eq a b
same_category _ _ = false

pub record Currency : Type 0 where
  pub code : String
  pub decimals : ℤ

pub record CostComponent : Type 0 where
  pub name : String
  pub category : CostCategory
  pub amount : Money
  pub source : String

pub record PriceBreakdown : Type 0 where
  pub currency : Currency
  pub material : Money
  pub machine : Money
  pub labor : Money
  pub overhead : Money
  pub production_cost : Money
  pub margin : Money
  pub discount : Money
  pub pre_tax : Money
  pub tax : Money
  pub final_price : Money
  pub lines : List CostComponent

pub data PriceError : Type 0 where
  bad_code bad_precision negative_amount bad_production_cost bad_pre_tax : PriceError
  bad_final_price no_lines no_name bad_category no_source negative_line : PriceError
  bad_total no_dataset bad_dataset no_material_prices negative_price : PriceError
  negative_hourly_rate negative_rate no_price no_part_area : PriceError

unfoldable pub currency_guards : Currency → List (Bool × PriceError)
currency_guards c =
    (not (len c.code == 3), bad_code)
    ∷ (ltb_ℤ c.decimals (pos 0) || ltb_ℤ (pos 4) c.decimals, bad_precision)
    ∷ []

abbrev pub is_negative : Money → Bool
is_negative m = ltb_ℤ m (pos 0)

unfoldable pub any_negative : List Money → Bool
any_negative [] = false
any_negative (m ∷ ms) = is_negative m || any_negative ms

unfoldable pub amounts : PriceBreakdown → List Money
amounts b =
    b.material ∷ b.machine ∷ b.labor ∷ b.overhead ∷ b.production_cost ∷ b.margin ∷ b.discount
    ∷ b.pre_tax ∷ b.tax ∷ b.final_price ∷ []

-- The chain base, production cost, gross, pre-tax, final price.
unfoldable pub chain_guards : PriceBreakdown → List (Bool × PriceError)
chain_guards b =
    let base = plus (plus b.material b.machine) b.labor in
    let gross = plus b.production_cost b.margin in
    (not (eq_ℤ b.production_cost (plus base b.overhead)), bad_production_cost)
    ∷ (not (eq_ℤ b.pre_tax (minus gross b.discount)), bad_pre_tax)
    ∷ (not (eq_ℤ b.final_price (plus b.pre_tax b.tax)), bad_final_price)
    ∷ []

abbrev pub Totals : Type 0
Totals = List (CostCategory × Money)

-- `sums[cat] = sums[cat].Add(amount)`
unfoldable pub add_total : CostCategory → Money → Totals → Totals
add_total cat m [] = (cat, plus (pos 0) m) ∷ []
add_total cat m ((c, s) ∷ ts) =
    if same_category c cat then (c, plus s m) ∷ ts else (c, s) ∷ add_total cat m ts

unfoldable pub line_guards : CostComponent → List (Bool × PriceError)
line_guards l =
    (str_eq l.name "", no_name)
    ∷ (not (category_valid l.category), bad_category)
    ∷ (str_eq l.source "", no_source)
    ∷ (is_negative l.amount, negative_line)
    ∷ []

unfoldable pub all_line_guards : List CostComponent → List (Bool × PriceError)
all_line_guards [] = []
all_line_guards (l ∷ ls) = line_guards l ++ all_line_guards ls

unfoldable pub totals : List CostComponent → Totals → Totals
totals [] ts = ts
totals (l ∷ ls) ts = totals ls (add_total l.category l.amount ts)

-- The map `want`; a category that it lacks reads 0.
unfoldable pub want : PriceBreakdown → CostCategory → Money
want b material = b.material
want b machine = b.machine
want b labor = b.labor
want b overhead = b.overhead
want b margin = b.margin
want b discount = b.discount
want b tax = b.tax
want b (unknown _) = pos 0

unfoldable pub total_guards : PriceBreakdown → Totals → List (Bool × PriceError)
total_guards b [] = []
total_guards b ((c, s) ∷ ts) = (not (eq_ℤ (want b c) s), bad_total) ∷ total_guards b ts

abbrev pub is_empty : List CostComponent → Bool
is_empty [] = true
is_empty (_ ∷ _) = false

-- What is checked before the totals, in order.
unfoldable pub header_guards : PriceBreakdown → List (Bool × PriceError)
header_guards b =
    currency_guards b.currency
    ++ ((any_negative (amounts b), negative_amount)
        ∷ (chain_guards b ++ (is_empty b.lines, no_lines) ∷ all_line_guards b.lines))

unfoldable pub validate : PriceBreakdown → Option PriceError
validate b = first_error (header_guards b ++ total_guards b (totals b.lines []))
