-- ===== src/Manufacturing/Stock.antt =====
-- internal/domain/manufacturing/nesting.go: stock sheets and their registry. A length is a float, and
-- a pointer to a sheet is the sheet.
use stair_platform.Prelude.{
  ◌^◌, String, Bool, ◌&&◌, ◌||◌, Option, none, some, List, [], ◌∷◌, ◌++◌, str_eq, if◌then◌else◌,
  is_some, true, false, ◌⊎◌, inl, inr, lookup, insert, pos, first_error, Float, origin, le,
}

pub record StockSheet (f : Float) : Type 0 where
  pub material_code : String
  pub length : f.Carrier
  pub width : f.Carrier

pub data StockError : Type 0 where
  no_material dimensions_not_positive length_below_width duplicate_sheet : StockError

pub record StockSheetRegistry (f : Float) : Type 0 where
  pub by_material : List (String × List (StockSheet f))
  pub order : List String

module _ (f : Float) where
  -- `math.Abs`
  abbrev pub abs : f.Carrier → f.Carrier
  abs a = if f.lt a (origin f) then f.minus (origin f) a else a

  -- `Length.Equals`: the difference is at most 1e-6.
  unfoldable pub equals : f.Carrier → f.Carrier → Bool
  equals a b = le f (abs (f.minus a b)) (f.over (f.of_int (pos 1)) (f.of_int (pos (10 ^ 6))))

  unfoldable pub sheet_error : StockSheet f → Option StockError
  unfolding first_error
  sheet_error s = first_error (
      (str_eq s.material_code "", no_material)
      ∷ (
        f.is_nan s.length
            || f.is_inf s.length
            || le f s.length (origin f)
            || le f s.width (origin f),
        dimensions_not_positive,
      )
      ∷ (f.lt s.length s.width, length_below_width)
      ∷ [])

  unfoldable pub sheets_for : String → StockSheetRegistry f → List (StockSheet f)
  sheets_for code r = elim (lookup code r.by_material) [ none ↦ [] | some sheets ↦ sheets ]

  unfoldable pub has_sheet : StockSheet f → List (StockSheet f) → Bool
  unfolding equals
  has_sheet s [] = false
  has_sheet s (t ∷ ts) =
      let rest = has_sheet s ts in
      if equals t.length s.length && equals t.width s.width then true else rest

  unfoldable pub add_sheet : StockSheet f → StockSheetRegistry f → StockSheetRegistry f
  unfolding sheets_for
  add_sheet s r = record {
    by_material = insert s.material_code (sheets_for s.material_code r ++ s ∷ []) r.by_material;
    order =
        if is_some (lookup s.material_code r.by_material)
        then r.order
        else r.order ++ s.material_code ∷ [];
  }

  unfoldable pub add_sheets :
      List (StockSheet f) → StockSheetRegistry f → StockError ⊎ StockSheetRegistry f
  unfolding sheet_error has_sheet add_sheet
  add_sheets [] r = inr r
  add_sheets (s ∷ ss) r = elim (sheet_error s) [
    | some e ↦ inl e
    | none ↦ elim (has_sheet s (sheets_for s.material_code r)) [
      | true ↦ inl duplicate_sheet
      | false ↦ add_sheets ss (add_sheet s r)
    ]
  ]

  unfoldable pub new_registry : List (StockSheet f) → StockError ⊎ StockSheetRegistry f
  unfolding add_sheets
  new_registry sheets = add_sheets sheets (record { by_material = []; order = [] })
