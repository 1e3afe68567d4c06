-- ===== src/Manufacturing/Nesting/Laid.antt =====
-- The layout of the sheets of `Nest`.
use stair_platform.Prelude.{
  zero, suc, ℕ, String, ◌≡◌, refl, inl, inr, ◌⊎◌, List, [], ◌∷◌, ◌++◌, if◌then◌else◌, pos_part,
  arith, Bool-cases, All, All_map, All-append, Float, origin, Le, IsOrdered,
}
use stair_platform.Manufacturing.Stock.{StockSheet, StockSheetRegistry, sheets_for}
use stair_platform.Manufacturing.Nesting.{CutRect, SheetLayout, nest_group}
use stair_platform.Manufacturing.Nesting.Picking.{pick_sheet}
use stair_platform.Manufacturing.Nesting.Groups.{
  CutItem, Group, Key, NestingResult, same_key, has_group, rects_of, append_rect, append_copies,
  key_of, rect_of_item, group_items, nest_groups, result_of, nest,
}
use stair_platform.Manufacturing.Nesting.Layouts.{IsLaid}
use stair_platform.Manufacturing.Nesting.Sheets.{nest_group-IsLaid}
use stair_platform.Manufacturing.Nesting.Chosen.{Dims, SheetDims, pick_sheet-FitsSheet}

pub ⊎-cases {ℓ κ} :
    {A : Type ℓ} {B : Type κ} (s : A ⊎ B) → ((a : A) × (s ≡ inl a)) ⊎ ((b : B) × (s ≡ inr b))
⊎-cases (inl a) = inl (a, refl)
⊎-cases (inr b) = inr (b, refl)

module _ (f : Float) (Good : CutRect f → Type 0) where
  abbrev GoodGroup : Group f → Type 0
  GoodGroup g = All Good g.rects

  pub rects_of-All :
      (k : Key f) (gs : List (Group f)) → All GoodGroup gs → All Good (rects_of f k gs)
  unfolding rects_of
  rects_of-All k [] a = tt
  rects_of-All k (g ∷ gs) a = elim (Bool-cases (same_key f k g)) [
    | inl same ↦ rw (same, rects_of) a.0
    | inr other ↦ rw (other, rects_of) (rects_of-All k gs a.1)
  ]

  append_rect-All :
      (k : Key f) (r : CutRect f) (gs : List (Group f))
      → Good r
      → All GoodGroup gs
      → All GoodGroup (append_rect f k r gs)
  unfolding append_rect
  append_rect-All k r [] d a = ((d, tt), tt)
  append_rect-All k r (g ∷ gs) d a = elim (Bool-cases (same_key f k g)) [
    | inl same ↦ rw (same, append_rect) (All-append Good g.rects (r ∷ []) a.0 (d, tt), a.1)
    | inr other ↦ rw (other, append_rect) (a.0, append_rect-All k r gs d a.1)
  ]

  append_copies-All :
      (n : ℕ) (k : Key f) (r : CutRect f) (gs : List (Group f))
      → Good r
      → All GoodGroup gs
      → All GoodGroup (append_copies f n k r gs)
  unfolding append_copies
  append_copies-All zero k r gs d a = a
  append_copies-All (suc n) k r gs d a =
      append_copies-All n k r (append_rect f k r gs) d (append_rect-All k r gs d a)

  pub group_items-All :
      (items : List (CutItem f)) (order : List (Key f)) (gs : List (Group f))
      → All (λ i. Good (rect_of_item f i)) items
      → All GoodGroup gs
      → All GoodGroup (group_items f items order gs).1
  unfolding group_items
  group_items-All [] order gs d a = a
  group_items-All (i ∷ items) order gs d a =
      group_items-All items
        (if has_group f (key_of f i) gs then order else order ++ key_of f i ∷ [])
        (append_copies f (pos_part i.quantity) (key_of f i) (rect_of_item f i) gs) d.1
        (append_copies-All (pos_part i.quantity) (key_of f i) (rect_of_item f i) gs d.0 a)

module _ (f : Float) (registry : StockSheetRegistry f) (kerf : f.Carrier) where
  -- What `nest_groups` has done when it returns.
  pub nest_groups-step :
      (gs : List (Group f)) (k : Key f) (ks : List (Key f)) (layouts : List (SheetLayout f))
      → nest_groups f kerf registry gs (k ∷ ks) ≡ inr layouts
      → (s : StockSheet f) × (rest : List (SheetLayout f)) × (pick_sheet f kerf registry k.0
            (rects_of f k gs)
          ≡ inr s)
        × (nest_groups f kerf registry gs ks ≡ inr rest)
        × (layouts ≡ nest_group f kerf s k.1 (rects_of f k gs) ++ rest)
  unfolding nest_groups
  nest_groups-step gs k ks layouts h =
      elim (⊎-cases (pick_sheet f kerf registry k.0 (rects_of f k gs))) [
        | inl (e, bad) ↦ absurd (ground (arith, bad))
        | inr (s, good) ↦ elim (⊎-cases (nest_groups f kerf registry gs ks)) [
          | inl (e, bad) ↦ absurd (ground (arith, good, bad))
          | inr (rest, done) ↦ (s, rest, good, done, ground (arith, good, done))
        ]
      ]

module _ (f : Float) (o : IsOrdered f) (registry : StockSheetRegistry f) (kerf : f.Carrier)
    (stocked : (m : String) → All (SheetDims f o) (sheets_for f m registry)) where
  nest_groups-IsLaid :
      (gs : List (Group f)) (ks : List (Key f)) (layouts : List (SheetLayout f))
      → Le f (origin f) kerf
      → All (λ g. All (Dims f o) g.rects) gs
      → nest_groups f kerf registry gs ks ≡ inr layouts
      → All (IsLaid f kerf) layouts
  unfolding nest_groups
  nest_groups-IsLaid gs [] layouts n a h = let e : layouts ≡ [] = ground arith in rw e tt
  nest_groups-IsLaid gs (k ∷ ks) layouts n a h =
      let (s, rest, good, done, e) = nest_groups-step f registry kerf gs k ks layouts h in
      let rects = rects_of f k gs in
      let (fit, d) =
        pick_sheet-FitsSheet f o kerf n registry k.0 rects s k.1 (stocked k.0)
          (rects_of-All f (Dims f o) k gs a) good in
      rw e (
        All-append (IsLaid f kerf) (nest_group f kerf s k.1 rects) rest
          (All_map (λ l p. p.0) (nest_group f kerf s k.1 rects)
            (nest_group-IsLaid f kerf o s k.1 rects fit d.1))
          (nest_groups-IsLaid gs ks rest n a done))

  -- Over ordered floats, where no side of an item or of a sheet of the catalogue is below 0, the parts
  -- on each sheet of a nesting lie inside the sheet, the cut at their far sides included, and no two
  -- overlap: a cut lies between them.
  pub nest-IsLaid :
      (items : List (CutItem f)) (result : NestingResult f)
      → All (λ i. Dims f o (rect_of_item f i)) items
      → nest f kerf registry items ≡ inr result
      → All (IsLaid f kerf) result.sheets
  unfolding nest result_of
  nest-IsLaid items result d h =
      let made = group_items f items [] [] in
      elim (⊎-cases (nest_groups f kerf registry made.1 made.0)) [
        | inl (e, bad) ↦ absurd (ground (arith, bad))
        | inr (layouts, done) ↦
            let e : result.sheets ≡ layouts = ground (arith, done) in
            rw e (
              nest_groups-IsLaid made.1 made.0 layouts (o.nonneg kerf (ground arith) (ground arith))
                (group_items-All f (Dims f o) items [] [] d tt) done)
      ]
