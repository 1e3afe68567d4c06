-- ===== src/Manufacturing/Nesting/Complete.antt =====
-- The parts of the cut list against the parts on the sheets of `Nest`.
use mathlib.Core.List.{Perm, append_assoc, append-nil, perm_append_comm}
use mathlib.Core.List.Perm
use stair_platform.Prelude.{
  zero, suc, ℕ, ◌<◌, ◌≡◌, refl, inl, inr, false, List, [], ◌∷◌, ◌++◌, map, if◌then◌else◌, pos_part,
  length, length-append, length-map, ◌+◌, arith, Bool-cases, All, All_map, All-of_map, Float,
  origin, Le, IsOrdered,
}
use stair_platform.Manufacturing.Stock.{StockSheetRegistry, sheets_for}
use stair_platform.Manufacturing.Nesting.{CutRect, SheetLayout, nest_group}
use stair_platform.Manufacturing.Nesting.Groups.{
  CutItem, Group, Key, NestingResult, same_key, has_group, rects_of, append_rect, append_copies,
  key_of, rect_of_item, group_items, nest_groups, count_parts, result_of, nest,
}
use stair_platform.Manufacturing.Nesting.Parts.{rect_of, rects_in, rects_in-append, nest_group-perm}
use stair_platform.Manufacturing.Nesting.Keys.{
  group_key, Proper, rects_of-Distinct, group_items-Distinct, group_items-keys, group_items-order,
}
use stair_platform.Manufacturing.Nesting.Chosen.{Dims}
use stair_platform.Manufacturing.Nesting.Enough.{Room, Within, pick_sheet-enough}
use stair_platform.Manufacturing.Nesting.Laid.{nest_groups-step, rects_of-All, group_items-All}

module _ (f : Float) where
  -- All parts of the groups.
  all_rects : List (Group f) → List (CutRect f)
  all_rects [] = []
  all_rects (g ∷ gs) = g.rects ++ all_rects gs

  abbrev copies : ℕ → CutRect f → List (CutRect f)
  copies zero r = []
  copies (suc n) r = r ∷ copies n r

  -- The parts of a cut list: each item as often as its quantity says.
  unfoldable pub all_parts : List (CutItem f) → List (CutRect f)
  all_parts [] = []
  all_parts (i ∷ items) = copies (pos_part i.quantity) (rect_of_item f i) ++ all_parts items

  -- What is put between two lists may as well stand behind both.
  perm_to_end : (xs ys zs : List (CutRect f)) → Perm ((xs ++ ys) ++ zs) ((xs ++ zs) ++ ys)
  perm_to_end xs ys zs =
      rw (append_assoc xs ys zs, append_assoc xs zs ys)
        (Perm.append_left xs (perm_append_comm ys zs))

  append_rect-perm :
      (k : Key f) (r : CutRect f) (gs : List (Group f))
      → Perm (all_rects (append_rect f k r gs)) (all_rects gs ++ r ∷ [])
  unfolding append_rect all_rects
  append_rect-perm k r [] = Perm.rfl
  append_rect-perm k r (g ∷ gs) = elim (Bool-cases (same_key f k g)) [
    | inl same ↦ rw (same, append_rect) (perm_to_end g.rects (r ∷ []) (all_rects gs))
    | inr other ↦
        rw (other, append_rect, append_assoc g.rects (all_rects gs) (r ∷ []))
          (Perm.append_left g.rects (append_rect-perm k r gs))
  ]

  append_copies-perm :
      (n : ℕ) (k : Key f) (r : CutRect f) (gs : List (Group f))
      → Perm (all_rects (append_copies f n k r gs)) (all_rects gs ++ copies n r)
  unfolding append_copies
  append_copies-perm zero k r gs = rw (append-nil (all_rects gs)) Perm.rfl
  append_copies-perm (suc n) k r gs = Perm.trans (append_copies-perm n k r (append_rect f k r gs)) (
      rw (← append_assoc (all_rects gs) (r ∷ []) (copies n r))
        (Perm.append_right (copies n r) (append_rect-perm k r gs)))

  group_items-perm :
      (items : List (CutItem f)) (order : List (Key f)) (gs : List (Group f))
      → Perm (all_rects (group_items f items order gs).1) (all_rects gs ++ all_parts items)
  unfolding group_items all_parts
  group_items-perm [] order gs = rw (append-nil (all_rects gs)) Perm.rfl
  group_items-perm (i ∷ items) order gs =
      let n = pos_part i.quantity in
      let r = rect_of_item f i in
      Perm.trans
        (group_items-perm items
          (if has_group f (key_of f i) gs then order else order ++ key_of f i ∷ [])
          (append_copies f n (key_of f i) r gs))
        (rw (← append_assoc (all_rects gs) (copies n r) (all_parts items))
          (Perm.append_right (all_parts items) (append_copies-perm n (key_of f i) r gs)))

module _ (f : Float) (registry : StockSheetRegistry f) (kerf : f.Carrier) where
  nest_groups-perm :
      (all gs : List (Group f)) (layouts : List (SheetLayout f))
      → All (λ g. rects_of f (group_key f g) all ≡ g.rects) gs
      → nest_groups f kerf registry all (map (group_key f) gs) ≡ inr layouts
      → Perm (rects_in f layouts) (all_rects f gs)
  unfolding nest_groups rects_in all_rects
  nest_groups-perm all [] layouts a h = let e : layouts ≡ [] = ground arith in rw e Perm.rfl
  nest_groups-perm all (g ∷ gs) layouts a h =
      let k = group_key f g in
      let (s, rest, good, done, e) =
        nest_groups-step f registry kerf all k (map (group_key f) gs) layouts h in
      rw (e, rects_in-append, a.0)
        (Perm.append (nest_group-perm f kerf s k.1 g.rects) (nest_groups-perm all gs rest a.1 done))

  count_parts-length :
      (n : ℕ) (ls : List (SheetLayout f)) → count_parts f n ls ≡ n + length (rects_in f ls)
  unfolding count_parts rects_in
  count_parts-length n [] = omega arith
  count_parts-length n (l ∷ ls) = omega (
    arith,
    count_parts-length (n + length l.placed) ls,
    length-append (map (rect_of f) l.placed) (rects_in f ls),
    length-map (rect_of f) l.placed,
  )

  module _ (o : IsOrdered f) (len wid : f.Carrier) where
    -- An item of some quantity that is no larger than the catalogue has sheets for.
    pub record Nestable (i : CutItem f) : Type 0 where
      pub dims : Dims f o (rect_of_item f i)
      pub within : Within f o kerf len wid (rect_of_item f i)
      pub proper : Proper f (key_of f i)
      pub some_quantity : 0 < pos_part i.quantity
      pub room : Room f o kerf len wid (sheets_for f i.material_code registry)

    nest_groups-total :
        (gs : List (Group f)) (ks : List (Key f))
        → Le f (origin f) kerf
        → Le f (origin f) len
        → Le f (origin f) wid
        → All (λ g. All (λ r. Dims f o r × Within f o kerf len wid r) g.rects) gs
        → All (λ k. Room f o kerf len wid (sheets_for f k.0 registry)) ks
        → (layouts : List (SheetLayout f)) × (nest_groups f kerf registry gs ks ≡ inr layouts)
    unfolding nest_groups
    nest_groups-total gs [] k n m a room = ([], refl)
    nest_groups-total gs (key ∷ ks) k n m a room =
        let rects = rects_of f key gs in
        let (s, e) =
          pick_sheet-enough f o kerf registry key.0 rects len wid k n m
            (rects_of-All f (λ r. Dims f o r × Within f o kerf len wid r) key gs a) room.0 in
        let (rest, e') = nest_groups-total gs ks k n m a room.1 in
        (nest_group f kerf s key.1 rects ++ rest, rw (nest_groups, e, e') refl)

    -- Over ordered floats, for a cut that is a finite number and not below 0, a cut list of one item
    -- or more is nested, if no side of an item is below 0, its quantity is above 0, its thickness is a
    -- number and its material has a sheet, of finite area, that takes with the cut a length and a width
    -- that no item exceeds. The parts on the sheets are those of the items, each as often as its
    -- quantity says, and the result counts them.
    pub nest_total :
        (i : CutItem f) (items : List (CutItem f))
        → Le f (origin f) kerf
        → f.is_nan kerf ≡ false
        → f.is_inf kerf ≡ false
        → Le f (origin f) len
        → Le f (origin f) wid
        → All Nestable (i ∷ items)
        → (result : NestingResult f) × (nest f kerf registry (i ∷ items) ≡ inr result)
          × Perm (rects_in f result.sheets) (all_parts f (i ∷ items))
          × (result.part_count ≡ length (rects_in f result.sheets))
    unfolding nest result_of all_rects
    nest_total i items k nan inf n m a =
        let list = i ∷ items in
        let made = group_items f list [] [] in
        let groups = made.1 in
        let rooms =
          group_items-order f (λ q. Room f o kerf len wid (sheets_for f q.0 registry)) list [] []
            (All_map (λ (j : CutItem f) (w : Nestable j). w.room) list a) tt in
        let sizes =
          group_items-All f (λ r. Dims f o r × Within f o kerf len wid r) list [] []
            (All_map (λ (j : CutItem f) (w : Nestable j). (w.dims, w.within)) list a) tt in
        let (layouts, e) = nest_groups-total groups made.0 k n m sizes rooms in
        let keys =
          group_items-keys f list [] []
            (All_map (λ (j : CutItem f) (w : Nestable j). (w.proper, w.some_quantity)) list a)
            refl in
        let proper = All-of_map (group_key f) (Proper f) groups (
          rw keys (
            group_items-order f (Proper f) list [] []
              (All_map (λ (j : CutItem f) (w : Nestable j). w.proper) list a) tt)) in
        (
          result_of f layouts,
          ground (arith, nan, inf, o.not_lt_of_le (origin f) kerf k, e),
          Perm.trans
              (nest_groups-perm groups groups layouts
                (rects_of-Distinct f groups (group_items-Distinct f list [] [] tt) proper)
                (rw keys e))
              (group_items-perm f list [] []),
          omega (arith, count_parts-length 0 layouts),
        )
