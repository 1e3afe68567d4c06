-- ===== src/Manufacturing/Nesting/Picking.antt =====
-- internal/engine/manufacturing/nest.go: the choice of a stock sheet for a group of parts.
use stair_platform.Prelude.{
  String, Bool, true, false, not, ◌&&◌, ◌||◌, Option, none, some, ◌⊎◌, inl, inr, List, [], ◌∷◌, map,
  if◌then◌else◌, Float, origin,
}
use stair_platform.Manufacturing.Stock.{StockSheet, StockSheetRegistry, sheets_for}
use stair_platform.Manufacturing.Nesting.{CutRect}

module _ (f : Float) where
  pub record FeasibilityError : Type 0 where
    pub part_len : f.Carrier
    pub part_wid : f.Carrier
    pub kerf : f.Carrier

  pub data NestError : Type 0 where
    empty_cut_list negative_kerf : NestError
    no_sheet_fits : FeasibilityError → NestError

  -- The maximum of a dimension, from `best`.
  unfoldable pub largest : {A : Type 0} → (A → f.Carrier) → f.Carrier → List A → f.Carrier
  largest dim best [] = best
  largest dim best (r ∷ rs) = largest dim (if f.lt best (dim r) then dim r else best) rs

  abbrev pub max_len : List (CutRect f) → f.Carrier
  max_len = largest (λ r. r.length) (origin f)

  abbrev pub max_wid : List (CutRect f) → f.Carrier
  max_wid = largest (λ r. r.width) (origin f)

  abbrev pub area : StockSheet f → f.Carrier
  area s = f.times s.length s.width

  -- `best == nil || area < bestArea`: the first area is compared with infinity.
  unfoldable pub better : StockSheet f → Option (StockSheet f) → Bool
  better s none = not (f.is_nan (area s)) && (not (f.is_inf (area s)) || f.lt (area s) (origin f))
  better s (some best) = f.lt (area s) (area best)

  module _ (kerf : f.Carrier) where
    unfoldable pub too_small : f.Carrier → f.Carrier → StockSheet f → Bool
    too_small len wid s = f.lt s.length (f.plus len kerf) || f.lt s.width (f.plus wid kerf)

    -- What a sheet makes of the best one.
    unfoldable pub consider :
        f.Carrier → f.Carrier → StockSheet f → Option (StockSheet f) → Option (StockSheet f)
    unfolding too_small better
    consider len wid s best =
        if too_small len wid s then best else if better s best then some s else best

    -- The loop over the sheets.
    unfoldable pub pick_from :
        f.Carrier → f.Carrier → Option (StockSheet f) → List (StockSheet f) → Option (StockSheet f)
    unfolding consider
    pick_from len wid best [] = best
    pick_from len wid best (s ∷ ss) = pick_from len wid (consider len wid s best) ss

    unfoldable pub pick_sheet_fit :
        StockSheetRegistry f → String → List (CutRect f) → Option (StockSheet f)
    unfolding pick_from largest
    pick_sheet_fit registry material rects =
        pick_from (max_len rects) (max_wid rects) none (sheets_for f material registry)

    unfoldable pub pick_sheet :
        StockSheetRegistry f → String → List (CutRect f) → NestError ⊎ StockSheet f
    unfolding pick_sheet_fit largest
    pick_sheet registry material rects = elim (pick_sheet_fit registry material rects) [
      | some best ↦ inr best
      | none ↦ inl (
          no_sheet_fits
            (record { part_len = max_len rects; part_wid = max_wid rects; kerf = kerf }))
    ]

    -- `l < w` swaps the sides.
    unfoldable pub normalized : CutRect f → CutRect f
    normalized r =
        if f.lt r.length r.width then record r { length = r.width; width = r.length } else r

    unfoldable pub sheet_feasible : StockSheetRegistry f → String → List (CutRect f) → Bool
    unfolding normalized pick_sheet_fit
    sheet_feasible registry material rects =
        elim (pick_sheet_fit registry material (map normalized rects)) [
          | none ↦ false
          | some _ ↦ true
        ]

  -- The largest length and the largest width of the sheets of a material.
  unfoldable pub largest_stock_sheet :
      StockSheetRegistry f → String → Option (f.Carrier × f.Carrier)
  unfolding largest
  largest_stock_sheet registry material = elim (sheets_for f material registry) [
    | [] ↦ none
    | s ∷ ss ↦ some (
      largest (λ (t : StockSheet f). t.length) (origin f) (s ∷ ss),
      largest (λ (t : StockSheet f). t.width) (origin f) (s ∷ ss),
    )
  ]
