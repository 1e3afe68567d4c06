-- ===== src/Pricing/Extended.antt =====
-- internal/domain/pricing/extended.go: the price of a project from its materials, operations and
-- finishings. Areas, times and volumes are floats; the texts that Sprintf prints of numbers are
-- arguments. The field Breakdown of a project is neither read nor written here.
pub mod Calculation
mod Labor
pub mod Finishing
mod Examples
use stair_platform.Prelude.{
  ℕ, ◌+◌, ◌^◌, String, Bool, not, ◌&&◌, ◌||◌, Option, none, some, List, [], ◌∷◌, str_eq, ◌==◌,
  if◌then◌else◌, length, contains, ℤ, pos, ltb_ℤ, eq_ℤ, first_error, Float,
}
use stair_platform.Pricing.Money.{Money, Rate, rate_valid}
use stair_platform.Pricing.Breakdown.{Currency, PriceError, currency_guards, is_negative}

abbrev pub finishing_types : List String
finishing_types =
    "none" ∷ "painting" ∷ "powder-coating" ∷ "galvanizing" ∷ "heat-treatment" ∷ "anodizing"
    ∷ "brushing" ∷ "polishing" ∷ "sandblasting" ∷ "custom" ∷ []

unfoldable pub finishing_valid : String → Bool
finishing_valid t = contains finishing_types t

pub data ItemError : Type 0 where
  bad_finishing area_not_positive negative_unit_price : ItemError
  operation_id_not_positive no_operation_type no_machine_type negative_time : ItemError
  negative_rate no_part_number no_material volume_not_positive : ItemError
  density_not_positive negative_price_per_kg total_mismatch : ItemError

pub data ProjectError : Type 0 where
  project_id_required overhead_invalid margin_invalid discount_invalid tax_invalid : ProjectError
  no_cost_items : ProjectError
  currency_invalid breakdown_invalid : PriceError → ProjectError
  material_invalid operation_invalid finishing_invalid : ℕ → ItemError → ProjectError

-- The first item that fails, with its position.
unfoldable pub first_bad :
    {A : Type 0} → (A → Option ItemError) → ℕ → List A → Option (ℕ × ItemError)
first_bad check i [] = none
first_bad check i (a ∷ rest) = elim (check a) [
  | none ↦ first_bad check (i + 1) rest
  | some e ↦ some (i, e)
]

module _ (f : Float) where
  pub record FinishingCost : Type 0 where
    pub type : String
    pub area : f.Carrier
    pub unit_price : Money
    pub total_price : Money
    pub description : String

  pub record OperationCost : Type 0 where
    pub operation_id : ℤ
    pub operation_type : String
    pub machine_type : String
    pub estimated_time : f.Carrier
    pub hourly_rate : Money
    pub total_cost : Money

  pub record MaterialCost : Type 0 where
    pub part_number : String
    pub material_name : String
    pub volume : f.Carrier
    pub density : f.Carrier
    pub price_per_kg : Money
    pub total_cost : Money

  -- `x <= 0`
  abbrev pub not_positive : f.Carrier → Bool
  not_positive x = f.lt x (f.of_int (pos 0)) || f.eq x (f.of_int (pos 0))

  unfoldable pub finishing_error : FinishingCost → Option ItemError
  unfolding first_error finishing_valid
  finishing_error c = first_error (
      (not (finishing_valid c.type), bad_finishing)
      ∷ (not_positive c.area, area_not_positive)
      ∷ (is_negative c.unit_price, negative_unit_price)
      ∷ (
        not (eq_ℤ c.total_price (f.to_int64 (f.times (f.of_int c.unit_price) c.area))),
        total_mismatch,
      )
      ∷ [])

  unfoldable pub operation_error : OperationCost → Option ItemError
  unfolding first_error
  operation_error c = first_error (
      (not (ltb_ℤ (pos 0) c.operation_id), operation_id_not_positive)
      ∷ (str_eq c.operation_type "", no_operation_type)
      ∷ (str_eq c.machine_type "", no_machine_type)
      ∷ (f.lt c.estimated_time (f.of_int (pos 0)), negative_time)
      ∷ (is_negative c.hourly_rate, negative_rate)
      ∷ (
        not (
            eq_ℤ c.total_cost (
              f.to_int64
                (f.over (f.times (f.of_int c.hourly_rate) c.estimated_time) (f.of_int (pos 60))))),
        total_mismatch,
      )
      ∷ [])

  unfoldable pub material_error : MaterialCost → Option ItemError
  unfolding first_error
  material_error c =
      let weight = f.over (f.times c.volume c.density) (f.of_int (pos (10 ^ 9))) in
      first_error (
        (str_eq c.part_number "", no_part_number)
        ∷ (str_eq c.material_name "", no_material)
        ∷ (not_positive c.volume, volume_not_positive)
        ∷ (not_positive c.density, density_not_positive)
        ∷ (is_negative c.price_per_kg, negative_price_per_kg)
        ∷ (
          not (eq_ℤ c.total_cost (f.to_int64 (f.times (f.of_int c.price_per_kg) weight))),
          total_mismatch,
        )
        ∷ [])

  pub record ProjectPricing : Type 0 where
    pub project_id : String
    pub currency : Currency
    pub materials : List MaterialCost
    pub operations : List OperationCost
    pub finishings : List FinishingCost
    pub overhead_rate : Rate
    pub margin_rate : Rate
    pub discount_rate : Rate
    pub tax_rate : Rate

  unfoldable pub no_items : ProjectPricing → Bool
  no_items p = length p.materials == 0 && length p.operations == 0 && length p.finishings == 0

  -- The checks of the items, in order.
  unfoldable pub items_error : ProjectPricing → Option ProjectError
  unfolding first_bad material_error operation_error finishing_error
  items_error p = elim (first_bad material_error 0 p.materials) [
    | some (i, e) ↦ some (material_invalid i e)
    | none ↦ elim (first_bad operation_error 0 p.operations) [
      | some (i, e) ↦ some (operation_invalid i e)
      | none ↦ elim (first_bad finishing_error 0 p.finishings) [
        | some (i, e) ↦ some (finishing_invalid i e)
        | none ↦ none
      ]
    ]
  ]

  unfoldable pub project_error : ProjectPricing → Option ProjectError
  unfolding first_error no_items items_error
  project_error p =
      if str_eq p.project_id ""
      then some project_id_required
      else elim (first_error (currency_guards p.currency)) [
        | some e ↦ some (currency_invalid e)
        | none ↦
            elim (first_error (
              (not (rate_valid p.overhead_rate), overhead_invalid)
              ∷ (not (rate_valid p.margin_rate), margin_invalid)
              ∷ (not (rate_valid p.discount_rate), discount_invalid)
              ∷ (not (rate_valid p.tax_rate), tax_invalid)
              ∷ (no_items p, no_cost_items)
              ∷ [])) [ some e ↦ some e | none ↦ items_error p ]
      ]
