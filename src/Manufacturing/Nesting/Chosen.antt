-- ===== src/Manufacturing/Nesting/Chosen.antt =====
-- The stock sheet that `pickSheet` chooses, against the parts of the group.
use stair_platform.Prelude.{
  String, ◌≡◌, sym, inl, inr, true, false, none, some, Option, List, [], ◌∷◌, if◌then◌else◌, arith,
  Bool-cases, Option-cases, All, All_map, Float, origin, Le, IsOrdered,
}
use stair_platform.Manufacturing.Stock.{StockSheet, StockSheetRegistry, sheets_for}
use stair_platform.Manufacturing.Nesting.{CutRect, effective_length, effective_width}
use stair_platform.Manufacturing.Nesting.Picking.{
  largest, max_len, max_wid, better, too_small, consider, pick_from, pick_sheet_fit, pick_sheet,
}
use stair_platform.Manufacturing.Nesting.Sheets.{FitsSheet}

module _ (f : Float) (o : IsOrdered f) where
  -- Nothing of an item is less than 0.
  abbrev pub Dims : CutRect f → Type 0
  Dims r = Le f (origin f) r.length × Le f (origin f) r.width

  abbrev pub SheetDims : StockSheet f → Type 0
  SheetDims s = Le f (origin f) s.length × Le f (origin f) s.width

  le_of_lt : (a b : f.Carrier) → f.lt a b ≡ true → Le f a b
  le_of_lt a b h = ground arith

  larger : {A : Type 0} → (A → f.Carrier) → f.Carrier → A → f.Carrier
  larger dim best r = if f.lt best (dim r) then dim r else best

  larger-bounds :
      {A : Type 0} (dim : A → f.Carrier) (best : f.Carrier) (r : A)
      → Le f (origin f) best
      → Le f (origin f) (dim r)
      → Le f (origin f) (larger dim best r)
        × Le f best (larger dim best r)
        × Le f (dim r) (larger dim best r)
  unfolding larger
  larger-bounds dim best r n d = elim (Bool-cases (f.lt best (dim r))) [
    | inl e ↦ rw (e, larger) (d, le_of_lt best (dim r) e, o.le_refl (dim r) d)
    | inr e ↦ rw (e, larger) (n, o.le_refl best n, o.le_of_not_lt best (dim r) n d e)
  ]

  -- The maximum bounds each element and is no less than where it began.
  pub largest-bounds :
      {A : Type 0} (dim : A → f.Carrier) (best : f.Carrier) (rs : List A)
      → Le f (origin f) best
      → All (λ r. Le f (origin f) (dim r)) rs
      → Le f best (largest f dim best rs) × All (λ r. Le f (dim r) (largest f dim best rs)) rs
  unfolding largest larger
  largest-bounds dim best [] n a = (o.le_refl best n, tt)
  largest-bounds dim best (r ∷ rs) n a =
      let (n', b, d) = larger-bounds dim best r n a.0 in
      let (m, all) = largest-bounds dim (larger dim best r) rs n' a.1 in
      (
        o.le_trans best (larger dim best r) (largest f dim best (r ∷ rs)) b m,
        (o.le_trans (dim r) (larger dim best r) (largest f dim best (r ∷ rs)) d m, all),
      )

  module _ (kerf : f.Carrier) (kerf_nonneg : Le f (origin f) kerf) where
    -- The chosen sheet is one of the list, or the one before, and is large enough.
    Chosen : (StockSheet f → Type 0) → f.Carrier → f.Carrier → Option (StockSheet f) → Type 0
    Chosen Good len wid best =
        (b : StockSheet f) → best ≡ some b → Good b × (too_small f kerf len wid b ≡ false)

    consider-Chosen :
        (Good : StockSheet f → Type 0) (len wid : f.Carrier) (best : Option (StockSheet f))
        (s : StockSheet f)
        → Good s
        → Chosen Good len wid best
        → Chosen Good len wid (consider f kerf len wid s best)
    unfolding consider Chosen
    consider-Chosen Good len wid best s g known b e =
        elim (Bool-cases (too_small f kerf len wid s)) [
          | inl small ↦ known b (ground (arith, e))
          | inr large ↦ elim (Bool-cases (better f s best)) [
            | inl new ↦ let e' : s ≡ b = ground (arith, e) in rw (sym e') (g, large)
            | inr old ↦ known b (ground (arith, e))
          ]
        ]

    pick_from-Chosen :
        (Good : StockSheet f → Type 0) (len wid : f.Carrier) (best : Option (StockSheet f))
        (ss : List (StockSheet f))
        → All Good ss
        → Chosen Good len wid best
        → Chosen Good len wid (pick_from f kerf len wid best ss)
    unfolding pick_from
    pick_from-Chosen Good len wid best [] a known = known
    pick_from-Chosen Good len wid best (s ∷ ss) a known =
        pick_from-Chosen Good len wid (consider f kerf len wid s best) ss a.1
          (consider-Chosen Good len wid best s a.0 known)

    fits_bound :
        (dim most bound : f.Carrier)
        → Le f (origin f) dim
        → Le f dim most
        → Le f (origin f) bound
        → f.lt bound (f.plus most kerf) ≡ false
        → Le f (f.plus dim kerf) bound
    fits_bound dim most bound n m b not_less =
        let most_nonneg = o.le_trans (origin f) dim most n m in
        o.le_trans (f.plus dim kerf) (f.plus most kerf) bound
          (o.plus_mono dim kerf most kerf n kerf_nonneg m (o.le_refl kerf kerf_nonneg))
          (o.le_of_not_lt bound (f.plus most kerf) b
            (o.le_trans (origin f) most (f.plus most kerf) most_nonneg
              (o.le_plus most kerf most_nonneg kerf_nonneg))
            not_less)

    all_fit :
        (rects : List (CutRect f)) (len wid : f.Carrier) (s : StockSheet f)
        → SheetDims s
        → too_small f kerf len wid s ≡ false
        → All Dims rects
        → All (λ r. Le f r.length len) rects
        → All (λ r. Le f r.width wid) rects
        → (thickness : f.Carrier) → All (FitsSheet f kerf o s thickness) rects
    unfolding too_small
    all_fit [] len wid s d large a l w thickness = tt
    all_fit (r ∷ rs) len wid s d large a l w thickness = (
      (
        (
          o.le_trans (origin f) r.length (effective_length f kerf r) a.0.0
              (o.le_plus r.length kerf a.0.0 kerf_nonneg),
          o.le_trans (origin f) r.width (effective_width f kerf r) a.0.1
              (o.le_plus r.width kerf a.0.1 kerf_nonneg),
        ),
        fits_bound r.length len s.length a.0.0 l.0 d.0 (ground arith),
        fits_bound r.width wid s.width a.0.1 w.0 d.1 (ground arith),
      ),
      all_fit rs len wid s d large a.1 l.1 w.1 thickness,
    )

    -- A sheet that is chosen has room for each part of the group.
    pub pick_sheet-FitsSheet :
        (registry : StockSheetRegistry f) (material : String) (rects : List (CutRect f))
        (s : StockSheet f) (thickness : f.Carrier)
        → All SheetDims (sheets_for f material registry)
        → All Dims rects
        → pick_sheet f kerf registry material rects ≡ inr s
        → All (FitsSheet f kerf o s thickness) rects × SheetDims s
    unfolding pick_sheet pick_sheet_fit Chosen
    pick_sheet-FitsSheet registry material rects s thickness good a h =
        let len = max_len f rects in
        let wid = max_wid f rects in
        elim (Option-cases (pick_sheet_fit f kerf registry material rects)) [
          | inl nothing ↦ absurd (ground arith)
          | inr (t, e) ↦
              let (d, large) =
                pick_from-Chosen SheetDims len wid none (sheets_for f material registry) good
                  (λ b e. absurd (ground arith)) t e in
              let e' : t ≡ s = ground (arith, e) in
              let longest =
                largest-bounds (λ (r : CutRect f). r.length) (origin f) rects o.origin_le
                  (All_map (λ r d. d.0) rects a) in
              let widest =
                largest-bounds (λ (r : CutRect f). r.width) (origin f) rects o.origin_le
                  (All_map (λ r d. d.1) rects a) in
              rw (sym e') (all_fit rects len wid t d large a longest.1 widest.1 thickness, d)
        ]
