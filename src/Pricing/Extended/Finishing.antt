-- ===== src/Pricing/Extended/Finishing.antt =====
-- The finishings in the price of a project.
use stair_platform.Prelude.{
  String, ◌≡◌, refl, sym, ap, ◌∙◌, inl, inr, none, List, [], ◌∷◌, ◌++◌, map, arith, if◌then◌else◌,
  Option-cases, ℤ, pos, ltb_ℤ, first_error-append, Float,
}
use stair_platform.Pricing.Money.{Money, Rate}
use stair_platform.Pricing.Breakdown.{
  labor, discount, tax, CostComponent, PriceBreakdown, Totals, add_total, totals, total_guards,
  header_guards, validate,
}
use stair_platform.Pricing.Engine.{line}
use stair_platform.Pricing.Extended.{
  FinishingCost, OperationCost, MaterialCost, ProjectPricing, project_error,
}
use stair_platform.Pricing.Extended.Calculation.{
  calculated, sum_of, material_line, operation_line, finishing_line, rate_lines, item_lines,
  breakdown_of, calculate_breakdown, rate_source,
}
use stair_platform.Pricing.Extended.Labor.{
  or_zero, labor_total, labor_total-add_labor, NoLabor, totals-append, labor_total-totals,
  total_guards-labor, eq_zero, if-NoLabor,
}

module _ (f : Float) (print_int : ℤ → String) (print_area : f.Carrier → String)
    (print_percent : Rate → String) where
  finishing_total :
      (fs : List (FinishingCost f)) (ts : Totals)
      → or_zero
          (labor_total (totals (map (finishing_line f print_int print_area print_percent) fs) ts))
        ≡ sum_of (λ (c : FinishingCost f). c.total_price) fs (or_zero (labor_total ts))
  unfolding totals finishing_line line sum_of or_zero
  finishing_total [] ts = refl
  finishing_total (c ∷ fs) ts =
      finishing_total fs (add_total labor c.total_price ts)
      ∙ ap (λ m. sum_of (λ (c : FinishingCost f). c.total_price) fs (or_zero m))
          (labor_total-add_labor c.total_price ts)

  materials-NoLabor :
      (ms : List (MaterialCost f))
      → NoLabor (map (material_line f print_int print_area print_percent) ms)
  unfolding material_line line
  materials-NoLabor [] = tt
  materials-NoLabor (m ∷ ms) = (refl, materials-NoLabor ms)

  operations-NoLabor :
      (os : List (OperationCost f))
      → NoLabor (map (operation_line f print_int print_area print_percent) os)
  unfolding operation_line line
  operations-NoLabor [] = tt
  operations-NoLabor (o ∷ os) = (refl, operations-NoLabor os)

  rate_lines-NoLabor :
      (p : ProjectPricing f) (over marg disc tx : Money)
      → NoLabor (rate_lines f print_int print_area print_percent p over marg disc tx)
  unfolding rate_lines line
  rate_lines-NoLabor p over marg disc tx =
      let tax_line =
        line "Tax" tax tx (rate_source f print_int print_area print_percent p.tax_rate) in
      let taxes : List CostComponent = if ltb_ℤ (pos 0) tx then tax_line ∷ [] else [] in
      let none_there : NoLabor taxes =
        if-NoLabor (ltb_ℤ (pos 0) tx) (tax_line ∷ []) [] (refl, tt) tt in
      (
        refl,
        (
          refl,
          if-NoLabor (ltb_ℤ (pos 0) disc)
              (line "Discount" discount disc
                  (rate_source f print_int print_area print_percent p.discount_rate)
                ∷ taxes)
              taxes (refl, none_there) none_there,
        ),
      )

  module _ (p : ProjectPricing f) where
    abbrev b : PriceBreakdown
    b = breakdown_of f print_int print_area print_percent p

    abbrev finishings_sum : Money
    finishings_sum = sum_of (λ (c : FinishingCost f). c.total_price) p.finishings (pos 0)

    abbrev material_part : List CostComponent
    material_part = map (material_line f print_int print_area print_percent) p.materials

    abbrev operation_part : List CostComponent
    operation_part = map (operation_line f print_int print_area print_percent) p.operations

    abbrev finishing_part : List CostComponent
    finishing_part = map (finishing_line f print_int print_area print_percent) p.finishings

    labor_lines : or_zero (labor_total (totals b.lines [])) ≡ finishings_sum
    unfolding breakdown_of item_lines labor_total totals or_zero
    labor_lines =
        let items = material_part ++ (operation_part ++ finishing_part) in
        let rates =
          rate_lines f print_int print_area print_percent p b.overhead b.margin b.discount b.tax in
        let after_materials = totals material_part [] in
        let after_operations = totals operation_part after_materials in
        ap or_zero (
          ap labor_total (totals-append items rates [])
          ∙ labor_total-totals rates (totals items [])
              (rate_lines-NoLabor p b.overhead b.margin b.discount b.tax)
          ∙ ap labor_total (
              totals-append material_part (operation_part ++ finishing_part) []
              ∙ totals-append operation_part finishing_part after_materials))
        ∙ finishing_total p.finishings after_operations
        ∙ ap (λ o. sum_of (λ (c : FinishingCost f). c.total_price) p.finishings (or_zero o))
            (labor_total-totals operation_part after_materials (operations-NoLabor p.operations)
              ∙ labor_total-totals material_part [] (materials-NoLabor p.materials))

    validated :
        (d : PriceBreakdown)
        → calculate_breakdown f print_int print_area print_percent p ≡ calculated d
        → validate b ≡ none
    unfolding calculate_breakdown
    validated d h = elim (Option-cases (project_error f p)) [
      | inr (e, bad) ↦ absurd (ground arith)
      | inl fine ↦ elim (Option-cases (validate b)) [
        | inr (e, bad) ↦ absurd (ground arith)
        | inl good ↦ good
      ]
    ]

    -- A project is priced only if the prices of its finishings add up to 0: they stand in the labor
    -- lines, while the labor of the breakdown is 0.
    pub calculate_breakdown-finishings :
        (d : PriceBreakdown)
        → calculate_breakdown f print_int print_area print_percent p ≡ calculated d
        → finishings_sum ≡ pos 0
    unfolding validate or_zero breakdown_of
    calculate_breakdown-finishings d h =
        let passed =
          (first_error-append (header_guards b) (total_guards b (totals b.lines []))
            (validated d h)).1 in
        elim (Option-cases (labor_total (totals b.lines []))) [
          | inl none_there ↦ sym labor_lines ∙ ap or_zero none_there
          | inr (s, there) ↦
              sym labor_lines
              ∙ ap or_zero there
              ∙ eq_zero s (total_guards-labor b (totals b.lines []) s passed there)
        ]
