-- ===== src/Manufacturing/Nesting/Groups.antt =====
-- internal/engine/manufacturing/nest.go: `Nest`, which groups the parts of a cut list
-- (internal/domain/manufacturing/bom.go) by material and thickness. The map of the groups is an
-- association list. The goroutines of the groups write disjoint slots and the first error by index
-- is returned, so the groups are nested in turn.
use stair_platform.Prelude.{
  ℕ, zero, suc, ◌+◌, String, Bool, false, ◌&&◌, ◌||◌, ◌⊎◌, inl, inr, List, [], ◌∷◌, ◌++◌, str_eq,
  ◌==◌, length, if◌then◌else◌, ℤ, pos_part, Float, origin,
}
use stair_platform.Manufacturing.Stock.{StockSheetRegistry}
use stair_platform.Manufacturing.Nesting.{CutRect, PlacedPart, SheetLayout, nest_group}
use stair_platform.Manufacturing.Nesting.Picking.{
  NestError, empty_cut_list, negative_kerf, pick_sheet,
}

module _ (f : Float) where
  -- An item of a cut list (internal/domain/manufacturing/bom.go).
  pub record CutItem : Type 0 where
    pub part_number : String
    pub material_code : String
    pub thickness : f.Carrier
    pub length : f.Carrier
    pub width : f.Carrier
    pub quantity : ℤ

  pub record NestingResult : Type 0 where
    pub sheets : List (SheetLayout f)
    pub part_count : ℕ
    pub part_area : f.Carrier
    pub sheet_area : f.Carrier
    pub waste_area : f.Carrier
    pub utilization : f.Carrier

  -- A group of parts, with its key.
  pub record Group : Type 0 where
    pub material : String
    pub thickness : f.Carrier
    pub rects : List (CutRect f)

  abbrev pub Key : Type 0
  Key = String × f.Carrier

  -- `==` on the keys of the map.
  unfoldable pub same_key : Key → Group → Bool
  same_key k g = str_eq k.0 g.material && f.eq k.1 g.thickness

  unfoldable pub has_group : Key → List Group → Bool
  unfolding same_key
  has_group k [] = false
  has_group k (g ∷ gs) = same_key k g || has_group k gs

  -- `groups[k]`
  unfoldable pub rects_of : Key → List Group → List (CutRect f)
  unfolding same_key
  rects_of k [] = []
  rects_of k (g ∷ gs) = let rest = rects_of k gs in if same_key k g then g.rects else rest

  -- `groups[k] = append(groups[k], r)`
  unfoldable pub append_rect : Key → CutRect f → List Group → List Group
  unfolding same_key
  append_rect k r [] = record { material = k.0; thickness = k.1; rects = r ∷ [] } ∷ []
  append_rect k r (g ∷ gs) =
      if same_key k g then record g { rects = g.rects ++ r ∷ [] } ∷ gs else g ∷ append_rect k r gs

  unfoldable pub append_copies : ℕ → Key → CutRect f → List Group → List Group
  unfolding append_rect
  append_copies zero k r gs = gs
  append_copies (suc n) k r gs = append_copies n k r (append_rect k r gs)

  abbrev pub key_of : CutItem → Key
  key_of item = (item.material_code, item.thickness)

  abbrev pub rect_of_item : CutItem → CutRect f
  rect_of_item item = record {
    part_number = item.part_number;
    length = item.length;
    width = item.width;
  }

  -- The loop over the items: the keys in order, and the groups. An item of no quantity leaves its
  -- key without a group.
  unfoldable pub group_items : List CutItem → List Key → List Group → List Key × List Group
  unfolding has_group append_copies
  group_items [] order groups = (order, groups)
  group_items (item ∷ items) order groups =
      group_items items
        (if has_group (key_of item) groups then order else order ++ key_of item ∷ [])
        (append_copies (pos_part item.quantity) (key_of item) (rect_of_item item) groups)

  unfoldable pub count_parts : ℕ → List (SheetLayout f) → ℕ
  count_parts n [] = n
  count_parts n (l ∷ ls) = count_parts (n + length l.placed) ls

  -- `SheetArea` and `PartArea`, summed in the order of the loops.
  unfoldable pub sum_sheets : f.Carrier → List (SheetLayout f) → f.Carrier
  sum_sheets total [] = total
  sum_sheets total (l ∷ ls) = sum_sheets (f.plus total (f.times l.length l.width)) ls

  unfoldable pub sum_placed : f.Carrier → List (PlacedPart f) → f.Carrier
  sum_placed total [] = total
  sum_placed total (p ∷ ps) = sum_placed (f.plus total (f.times p.length p.width)) ps

  unfoldable pub sum_parts : f.Carrier → List (SheetLayout f) → f.Carrier
  unfolding sum_placed
  sum_parts total [] = total
  sum_parts total (l ∷ ls) = sum_parts (sum_placed total l.placed) ls

  unfoldable pub result_of : List (SheetLayout f) → NestingResult
  unfolding count_parts sum_sheets sum_parts
  result_of layouts =
      let sheet_area = sum_sheets (origin f) layouts in
      let part_area = sum_parts (origin f) layouts in
      record {
        sheets = layouts;
        part_count = count_parts 0 layouts;
        part_area = part_area;
        sheet_area = sheet_area;
        waste_area = f.minus sheet_area part_area;
        utilization = if f.lt (origin f) sheet_area then f.over part_area sheet_area else origin f;
      }

  module _ (kerf : f.Carrier) where
    -- The layouts of the groups, in order, or the first error.
    unfoldable pub nest_groups :
        StockSheetRegistry f → List Group → List Key → NestError f ⊎ List (SheetLayout f)
    unfolding pick_sheet nest_group rects_of
    nest_groups registry groups [] = inr []
    nest_groups registry groups (k ∷ ks) =
        let rects = rects_of k groups in
        elim (pick_sheet f kerf registry k.0 rects) [
          | inl e ↦ inl e
          | inr sheet ↦ elim (nest_groups registry groups ks) [
            | inl e ↦ inl e
            | inr layouts ↦ inr (nest_group f kerf sheet k.1 rects ++ layouts)
          ]
        ]

    -- The registry is not nil.
    unfoldable pub nest : StockSheetRegistry f → List CutItem → NestError f ⊎ NestingResult
    unfolding group_items nest_groups result_of
    nest registry items =
        if length items == 0
        then inl empty_cut_list
        else if f.is_nan kerf || f.is_inf kerf || f.lt kerf (origin f)
        then inl negative_kerf
        else let (order, groups) = group_items items [] [] in
          elim (nest_groups registry groups order) [
            | inl e ↦ inl e
            | inr layouts ↦ inr (result_of layouts)
          ]
