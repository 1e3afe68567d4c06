-- ===== src/Manufacturing/Nesting/Examples.antt =====
-- Examples on the nesting of parts, with integers in the place of floats.
use mathlib.Core.List.{Perm}
use stair_platform.Prelude.{
  ◌≡◌, refl, inl, inr, Bool-cases, ◌*ℤ◌, ◌-ℤ◌, String, List, [], ◌∷◌, arith, All, ℤ, pos, ◌+ℤ◌, ◌+◌,
  ◌≤◌, pos_part, neg_part, str_eq, Le, IsOrdered, whole, length, lookup, str_lt,
}
use stair_platform.Manufacturing.Stock.{StockSheet, StockSheetRegistry, sheets_for}
use stair_platform.Manufacturing.Nesting.{PlacedPart, SheetLayout}
use stair_platform.Manufacturing.Nesting.Picking.{better}
use stair_platform.Manufacturing.Nesting.Groups.{CutItem, NestingResult, nest}
use stair_platform.Manufacturing.Nesting.Parts.{rects_in}
use stair_platform.Manufacturing.Nesting.Chosen.{SheetDims}
use stair_platform.Manufacturing.Nesting.Layouts.{IsLaid}
use stair_platform.Manufacturing.Nesting.Laid.{nest-IsLaid}
use stair_platform.Manufacturing.Nesting.Complete.{Nestable, all_parts, nest_total}

Le-parts : (a b : ℤ) → Le whole a b → pos_part a + neg_part b ≤ pos_part b + neg_part a
Le-parts a b h = ground arith

parts-Le : (a b : ℤ) → pos_part a + neg_part b ≤ pos_part b + neg_part a → Le whole a b
parts-Le a b h = ground arith

plus_parts :
    (a b : ℤ)
    → pos_part (a +ℤ b) + neg_part a + neg_part b ≡ neg_part (a +ℤ b) + pos_part a + pos_part b
unfolding ◌+ℤ◌
plus_parts a b = ground arith

whole-IsOrdered : IsOrdered whole
unfolding ◌+ℤ◌
whole-IsOrdered = record {
  origin_le = refl;
  le_refl = λ a h. ground arith;
  le_trans = λ a b c h k. parts-Le a c (omega (arith, Le-parts a b h, Le-parts b c k));
  le_of_not_lt = λ a b h k n. ground arith;
  nonneg = λ a h k. ground arith;
  not_lt_of_le = λ a b h. ground arith;
  plus_mono = λ a b c d h k m n.
      parts-Le (a +ℤ b) (c +ℤ d)
        (omega (arith, Le-parts a c m, Le-parts b d n, plus_parts a b, plus_parts c d));
  le_plus = λ a b h k. ground arith;
  origin_plus = λ a h. ground arith;
}

abbrev oak_sheet : StockSheet whole
oak_sheet = record { material_code = "WOOD-OAK"; length = pos 10; width = pos 6 }

abbrev catalogue : StockSheetRegistry whole
catalogue = record { by_material = ("WOOD-OAK", oak_sheet ∷ []) ∷ []; order = "WOOD-OAK" ∷ [] }

abbrev tread : CutItem whole
tread = record {
  part_number = "T-1";
  material_code = "WOOD-OAK";
  thickness = pos 2;
  length = pos 6;
  width = pos 3;
  quantity = pos 2;
}

abbrev riser : CutItem whole
riser = record {
  part_number = "R-1";
  material_code = "WOOD-OAK";
  thickness = pos 2;
  length = pos 2;
  width = pos 2;
  quantity = pos 1;
}

stocked : (m : String) → All (SheetDims whole whole-IsOrdered) (sheets_for whole m catalogue)
unfolding sheets_for lookup
stocked m = elim (Bool-cases (str_eq "WOOD-OAK" m)) [
  | inl e ↦ rw (e, sheets_for, lookup) ((refl, refl), tt)
  | inr e ↦ rw (e, sheets_for, lookup) tt
]

abbrev layout : List (PlacedPart whole) → SheetLayout whole
layout placed = record {
  material_code = "WOOD-OAK";
  thickness = pos 2;
  length = pos 10;
  width = pos 6;
  placed = placed;
}

abbrev tread_place : PlacedPart whole
tread_place = record { part_number = "T-1"; length = pos 6; width = pos 3; x = pos 0; y = pos 0 }

abbrev riser_place : PlacedPart whole
riser_place = record { part_number = "R-1"; length = pos 2; width = pos 2; x = pos 7; y = pos 0 }

abbrev two_sheets : NestingResult whole
two_sheets = record {
  sheets = layout (tread_place ∷ []) ∷ layout (tread_place ∷ riser_place ∷ []) ∷ [];
  part_count = 3;
  part_area = pos 40;
  sheet_area = pos 120;
  waste_area = pos 80;
  utilization = pos 40;
}

nested : nest whole (pos 1) catalogue (tread ∷ riser ∷ []) ≡ inr two_sheets
unfolding nest sheets_for lookup ◌+ℤ◌ ◌*ℤ◌ ◌-ℤ◌ str_lt
nested = refl

nest-IsLaid_example : All (IsLaid whole (pos 1)) two_sheets.sheets
nest-IsLaid_example =
    nest-IsLaid whole whole-IsOrdered catalogue (pos 1) stocked (tread ∷ riser ∷ []) two_sheets
      ((refl, refl), ((refl, refl), tt)) nested

tread-Nestable : Nestable whole catalogue (pos 1) whole-IsOrdered (pos 6) (pos 4) tread
unfolding sheets_for lookup ◌+ℤ◌ better
tread-Nestable = record {
  dims = (refl, refl);
  within = (refl, refl);
  proper = refl;
  some_quantity = omega arith;
  room = inl (refl, refl, refl);
}

riser-Nestable : Nestable whole catalogue (pos 1) whole-IsOrdered (pos 6) (pos 4) riser
unfolding sheets_for lookup ◌+ℤ◌ better
riser-Nestable = record {
  dims = (refl, refl);
  within = (refl, refl);
  proper = refl;
  some_quantity = omega arith;
  room = inl (refl, refl, refl);
}

nest_total_example :
    (result : NestingResult whole) × (nest whole (pos 1) catalogue (tread ∷ riser ∷ [])
      ≡ inr result)
    × Perm (rects_in whole result.sheets) (all_parts whole (tread ∷ riser ∷ []))
    × (result.part_count ≡ length (rects_in whole result.sheets))
nest_total_example =
    nest_total whole catalogue (pos 1) whole-IsOrdered (pos 6) (pos 4) tread (riser ∷ []) refl refl
      refl refl refl (tread-Nestable, (riser-Nestable, tt))
