-- ===== src/Manufacturing/Nesting.antt =====
-- internal/engine/manufacturing/nest.go: `nestGroup`, which lays the parts of a group on sheets of one
-- size, shelf by shelf. Lengths are floats in millimetres.
pub mod Picking
pub mod Groups
pub mod Shelves
pub mod Layouts
pub mod Sheets
pub mod Parts
pub mod Chosen
pub mod Keys
pub mod Laid
pub mod Enough
pub mod Complete
mod Examples
use stair_platform.Prelude.{
  ℕ, zero, suc, ◌+◌, String, Bool, true, false, not, ◌&&◌, ◌||◌, Option, none, some, ◌⊎◌, inl, inr,
  List, [], ◌∷◌, ◌++◌, map, str_eq, ◌==◌, length, if◌then◌else◌, ℤ, pos_part, str_lt, Float, origin,
  le, sort_by,
}
use stair_platform.Manufacturing.Stock.{StockSheet, StockSheetRegistry, sheets_for}

module _ (f : Float) where
  pub record CutRect : Type 0 where
    pub part_number : String
    pub length : f.Carrier
    pub width : f.Carrier

  pub record PlacedPart : Type 0 where
    pub part_number : String
    pub length : f.Carrier
    pub width : f.Carrier
    pub x : f.Carrier
    pub y : f.Carrier

  pub record SheetLayout : Type 0 where
    pub material_code : String
    pub thickness : f.Carrier
    pub length : f.Carrier
    pub width : f.Carrier
    pub placed : List PlacedPart

  pub record Shelf : Type 0 where
    pub y : f.Carrier
    pub used_x : f.Carrier
    pub height : f.Carrier

  -- The variables of the loop of `nestGroup`.
  pub record Progress : Type 0 where
    pub layouts : List SheetLayout
    pub current : SheetLayout
    pub open_shelves : List Shelf
    pub cur_y : f.Carrier

  -- A part at a place.
  abbrev pub placed_at : CutRect → f.Carrier → f.Carrier → PlacedPart
  placed_at r x y = record {
    part_number = r.part_number;
    length = r.length;
    width = r.width;
    x = x;
    y = y;
  }

  -- The order of the parts: the longer first, then the wider, then by number.
  unfoldable pub before : CutRect → CutRect → Bool
  before a b =
      if not (f.eq a.length b.length)
      then f.lt b.length a.length
      else if not (f.eq a.width b.width)
      then f.lt b.width a.width
      else str_lt a.part_number b.part_number

  module _ (kerf : f.Carrier) where
    abbrev pub effective_length : CutRect → f.Carrier
    effective_length r = f.plus r.length kerf

    abbrev pub effective_width : CutRect → f.Carrier
    effective_width r = f.plus r.width kerf

    -- The first open shelf with room takes the part.
    unfoldable pub place_open : f.Carrier → CutRect → List Shelf → Option (List Shelf × PlacedPart)
    place_open sheet_len r [] = none
    place_open sheet_len r (s ∷ ss) =
        let rest = place_open sheet_len r ss in
        if le f (f.plus s.used_x (effective_length r)) sheet_len
          && le f (effective_width r) s.height
        then some (
          record s { used_x = f.plus s.used_x (effective_length r) } ∷ ss,
          placed_at r s.used_x s.y,
        )
        else elim rest [ none ↦ none | some (ss', p) ↦ some (s ∷ ss', p) ]

    unfoldable pub put : PlacedPart → SheetLayout → SheetLayout
    put p l = record l { placed = l.placed ++ p ∷ [] }

    module _ (sheet : StockSheet f) (thickness : f.Carrier) where
      unfoldable pub new_sheet : SheetLayout
      new_sheet = record {
        material_code = sheet.material_code;
        thickness = thickness;
        length = sheet.length;
        width = sheet.width;
        placed = [];
      }

      -- A new sheet, if the part goes over the edge of the current one.
      unfoldable pub make_room : CutRect → Progress → Progress
      unfolding new_sheet
      make_room r st =
          if f.lt sheet.width (f.plus st.cur_y (effective_width r))
          then record {
            layouts = st.layouts ++ st.current ∷ [];
            current = new_sheet;
            open_shelves = [];
            cur_y = origin f;
          }
          else st

      -- A new shelf with the part on it.
      unfoldable pub open_shelf : CutRect → Progress → Progress
      unfolding put
      open_shelf r st = record {
        layouts = st.layouts;
        current = put (placed_at r (origin f) st.cur_y) st.current;
        open_shelves =
            st.open_shelves
            ++ record { y = st.cur_y; used_x = effective_length r; height = effective_width r }
              ∷ [];
        cur_y = f.plus st.cur_y (effective_width r);
      }

      unfoldable pub place : CutRect → Progress → Progress
      unfolding place_open make_room open_shelf put
      place r st = elim (place_open sheet.length r st.open_shelves) [
        | some (ss, p) ↦ record st { current = put p st.current; open_shelves = ss }
        | none ↦ open_shelf r (make_room r st)
      ]

      unfoldable pub place_all : List CutRect → Progress → Progress
      unfolding place
      place_all [] st = st
      place_all (r ∷ rs) st = place_all rs (place r st)

      abbrev pub initial : Progress
      initial = record { layouts = []; current = new_sheet; open_shelves = []; cur_y = origin f }

      unfoldable pub nest_group : List CutRect → List SheetLayout
      unfolding place_all sort_by before new_sheet
      nest_group rects =
          let st = place_all (sort_by before rects) initial in st.layouts ++ st.current ∷ []
