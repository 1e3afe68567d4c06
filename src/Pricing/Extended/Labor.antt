-- ===== src/Pricing/Extended/Labor.antt =====
-- The total of the labor lines of a breakdown, which its validation compares with the labor.
use stair_platform.Prelude.{
  ◌≡◌, refl, ap, ◌∙◌, inl, inr, Bool, true, false, not, Option, none, some, List, [], ◌∷◌, ◌++◌,
  arith, if◌then◌else◌, Bool-cases, All, ℤ, pos, negsuc, eq_ℤ, first_error,
}
use stair_platform.Pricing.Money.{Money, plus}
use stair_platform.Pricing.Breakdown.{
  CostCategory, material, machine, labor, overhead, margin, discount, tax, unknown, CostComponent,
  PriceBreakdown, PriceError, Totals, same_category, add_total, totals, total_guards, want,
  bad_total,
}

abbrev pub is_labor : CostCategory → Bool
is_labor labor = true
is_labor _ = false

unfoldable pub or_zero : Option Money → Money
or_zero none = pos 0
or_zero (some m) = m

-- The total of the labor lines.
unfoldable pub labor_total : Totals → Option Money
labor_total [] = none
labor_total ((c, s) ∷ ts) = let rest = labor_total ts in if is_labor c then some s else rest

pub labor_total-add_labor :
    (m : Money) (ts : Totals)
    → labor_total (add_total labor m ts) ≡ some (plus (or_zero (labor_total ts)) m)
unfolding labor_total add_total or_zero
labor_total-add_labor m [] = refl
labor_total-add_labor m ((labor, s) ∷ ts) = refl
labor_total-add_labor m ((material, s) ∷ ts) = labor_total-add_labor m ts
labor_total-add_labor m ((machine, s) ∷ ts) = labor_total-add_labor m ts
labor_total-add_labor m ((overhead, s) ∷ ts) = labor_total-add_labor m ts
labor_total-add_labor m ((margin, s) ∷ ts) = labor_total-add_labor m ts
labor_total-add_labor m ((discount, s) ∷ ts) = labor_total-add_labor m ts
labor_total-add_labor m ((tax, s) ∷ ts) = labor_total-add_labor m ts
labor_total-add_labor m ((unknown c, s) ∷ ts) = labor_total-add_labor m ts

labor_is_apart :
    (c cat : CostCategory) → is_labor c ≡ true → is_labor cat ≡ false → same_category c cat ≡ false
labor_is_apart labor labor h i = absurd (ground arith)
labor_is_apart labor _ h i = refl
labor_is_apart _ cat h i = absurd (ground arith)

labor_total-add_other :
    (cat : CostCategory) (m : Money) (ts : Totals)
    → is_labor cat ≡ false
    → labor_total (add_total cat m ts) ≡ labor_total ts
unfolding labor_total add_total
labor_total-add_other cat m [] h = ground arith
labor_total-add_other cat m ((c, s) ∷ ts) h = elim (Bool-cases (same_category c cat)) [
  | inl same ↦ elim (Bool-cases (is_labor c)) [
    | inl is ↦ absurd (ground (arith, labor_is_apart c cat is h))
    | inr other ↦ ground arith
  ]
  | inr apart ↦ ground (arith, labor_total-add_other cat m ts h)
]

-- Lines of other categories leave the total.
abbrev pub NoLabor : List CostComponent → Type 0
NoLabor = All (λ l. is_labor l.category ≡ false)

pub totals-append :
    (xs ys : List CostComponent) (ts : Totals) → totals (xs ++ ys) ts ≡ totals ys (totals xs ts)
unfolding totals
totals-append [] ys ts = refl
totals-append (x ∷ xs) ys ts = totals-append xs ys (add_total x.category x.amount ts)

pub labor_total-totals :
    (ls : List CostComponent) (ts : Totals)
    → NoLabor ls
    → labor_total (totals ls ts) ≡ labor_total ts
unfolding totals
labor_total-totals [] ts a = refl
labor_total-totals (l ∷ ls) ts a =
    labor_total-totals ls (add_total l.category l.amount ts) a.1
    ∙ labor_total-add_other l.category l.amount ts a.0

pub if-NoLabor :
    (b : Bool) (xs ys : List CostComponent)
    → NoLabor xs
    → NoLabor ys
    → NoLabor (if b then xs else ys)
if-NoLabor true xs ys h i = h
if-NoLabor false xs ys h i = i

guards_tail :
    (test : Bool) (e : PriceError) (gs : List (Bool × PriceError))
    → first_error ((test, e) ∷ gs) ≡ none
    → first_error gs ≡ none
unfolding first_error
guards_tail test e gs h = ground arith

-- A breakdown whose totals pass has the labor of its lines.
pub total_guards-labor :
    (b : PriceBreakdown) (ts : Totals) (s : Money)
    → first_error (total_guards b ts) ≡ none
    → labor_total ts ≡ some s
    → eq_ℤ b.labor s ≡ true
unfolding total_guards labor_total first_error want
total_guards-labor b [] s g h = absurd (ground arith)
total_guards-labor b ((labor, m) ∷ ts) s g h = ground arith
total_guards-labor b ((c, m) ∷ ts) s g h =
    total_guards-labor b ts s
      (guards_tail (not (eq_ℤ (want b c) m)) bad_total (total_guards b ts) g) h

pub eq_zero : (s : ℤ) → eq_ℤ (pos 0) s ≡ true → s ≡ pos 0
eq_zero (pos n) h = ap pos (ground arith)
eq_zero (negsuc n) h = absurd (ground arith)
