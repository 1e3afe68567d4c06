-- ===== src/Manufacturing/Nesting/Enough.antt =====
-- Which catalogues have a sheet for `pickSheet`.
use stair_platform.Prelude.{
  String, ◌≡◌, refl, inl, inr, ◌⊎◌, true, none, some, Option, List, [], ◌∷◌, if◌then◌else◌,
  Bool-cases, All, All_map, Float, origin, Le, IsOrdered,
}
use stair_platform.Manufacturing.Stock.{StockSheet, StockSheetRegistry, sheets_for}
use stair_platform.Manufacturing.Nesting.{CutRect}
use stair_platform.Manufacturing.Nesting.Picking.{
  largest, max_len, max_wid, better, too_small, consider, pick_from, pick_sheet_fit, pick_sheet,
}
use stair_platform.Manufacturing.Nesting.Chosen.{Dims, largest-bounds}

module _ (f : Float) (o : IsOrdered f) (kerf : f.Carrier) where
  -- A sheet with room for a part of a length and a width, with an area that is finite.
  abbrev pub HasRoom : f.Carrier → f.Carrier → StockSheet f → Type 0
  HasRoom len wid s =
      Le f (f.plus len kerf) s.length × Le f (f.plus wid kerf) s.width × (better f s none ≡ true)

  abbrev pub Room : f.Carrier → f.Carrier → List (StockSheet f) → Type 0
  Room len wid [] = ⊥
  Room len wid (s ∷ ss) = HasRoom len wid s ⊎ Room len wid ss

  -- A part that is no larger.
  abbrev pub Within : f.Carrier → f.Carrier → CutRect f → Type 0
  Within len wid r = Le f r.length len × Le f r.width wid

  consider-some :
      (len wid : f.Carrier) (b s : StockSheet f)
      → (c : StockSheet f) × (consider f kerf len wid s (some b) ≡ some c)
  unfolding consider
  consider-some len wid b s = elim (Bool-cases (too_small f kerf len wid s)) [
    | inl small ↦ (b, rw (small, consider) refl)
    | inr large ↦ elim (Bool-cases (better f s (some b))) [
      | inl new ↦ (s, rw (large, consider, new) refl)
      | inr old ↦ (b, rw (large, consider, old) refl)
    ]
  ]

  pick_from-some :
      (len wid : f.Carrier) (b : StockSheet f) (ss : List (StockSheet f))
      → (c : StockSheet f) × (pick_from f kerf len wid (some b) ss ≡ some c)
  unfolding pick_from
  pick_from-some len wid b [] = (b, refl)
  pick_from-some len wid b (s ∷ ss) =
      let (c, e) = consider-some len wid b s in
      let (d, e') = pick_from-some len wid c ss in (d, rw (e, pick_from) e')

  pick_from-enough :
      (len wid : f.Carrier) (ss : List (StockSheet f)) (best : Option (StockSheet f))
      → Room len wid ss
      → (c : StockSheet f) × (pick_from f kerf len wid best ss ≡ some c)
  unfolding pick_from consider too_small
  pick_from-enough len wid [] best room = absurd room
  pick_from-enough len wid (s ∷ ss) (some b) room = pick_from-some len wid b (s ∷ ss)
  pick_from-enough len wid (s ∷ ss) none (inl has) =
      let (c, e) = pick_from-some len wid s ss in
      (
        c,
        rw
            (
              o.not_lt_of_le (f.plus len kerf) s.length has.0,
              o.not_lt_of_le (f.plus wid kerf) s.width has.1,
              has.2,
            )
            e,
      )
  pick_from-enough len wid (s ∷ ss) none (inr room) =
      pick_from-enough len wid ss (consider f kerf len wid s none) room

  largest-le :
      {A : Type 0} (dim : A → f.Carrier) (bound best : f.Carrier) (rs : List A)
      → Le f best bound
      → All (λ r. Le f (dim r) bound) rs
      → Le f (largest f dim best rs) bound
  unfolding largest
  largest-le dim bound best [] b a = b
  largest-le dim bound best (r ∷ rs) b a =
      largest-le dim bound (if f.lt best (dim r) then dim r else best) rs
        (elim (Bool-cases (f.lt best (dim r))) [ inl e ↦ rw e a.0 | inr e ↦ rw e b ]) a.1

  -- A sheet with room for a large part has room for a smaller one.
  Room-le :
      (len wid len' wid' : f.Carrier) (ss : List (StockSheet f))
      → Le f (origin f) kerf
      → Le f (origin f) len'
      → Le f (origin f) wid'
      → Le f len' len
      → Le f wid' wid
      → Room len wid ss
      → Room len' wid' ss
  Room-le len wid len' wid' [] k n m l w room = absurd room
  Room-le len wid len' wid' (s ∷ ss) k n m l w (inl (long, wide, finite)) =
      let same = o.le_refl kerf k in
      inl (
        o.le_trans (f.plus len' kerf) (f.plus len kerf) s.length
            (o.plus_mono len' kerf len kerf n k l same) long,
        o.le_trans (f.plus wid' kerf) (f.plus wid kerf) s.width
            (o.plus_mono wid' kerf wid kerf m k w same) wide,
        finite,
      )
  Room-le len wid len' wid' (s ∷ ss) k n m l w (inr room) =
      inr (Room-le len wid len' wid' ss k n m l w room)

  pub pick_sheet-enough :
      (registry : StockSheetRegistry f) (material : String) (rects : List (CutRect f))
      (len wid : f.Carrier)
      → Le f (origin f) kerf
      → Le f (origin f) len
      → Le f (origin f) wid
      → All (λ r. Dims f o r × Within len wid r) rects
      → Room len wid (sheets_for f material registry)
      → (s : StockSheet f) × (pick_sheet f kerf registry material rects ≡ inr s)
  unfolding pick_sheet pick_sheet_fit
  pick_sheet-enough registry material rects len wid k n m a room =
      let longest =
        largest-bounds f o (λ (r : CutRect f). r.length) (origin f) rects o.origin_le
          (All_map (λ r d. d.0.0) rects a) in
      let widest =
        largest-bounds f o (λ (r : CutRect f). r.width) (origin f) rects o.origin_le
          (All_map (λ r d. d.0.1) rects a) in
      let ss = sheets_for f material registry in
      let (s, e) = pick_from-enough (max_len f rects) (max_wid f rects) ss none (
        Room-le len wid (max_len f rects) (max_wid f rects) ss k longest.0 widest.0
          (largest-le (λ (r : CutRect f). r.length) len (origin f) rects n
            (All_map (λ r d. d.1.0) rects a))
          (largest-le (λ (r : CutRect f). r.width) wid (origin f) rects m
            (All_map (λ r d. d.1.1) rects a))
          room) in
      (s, rw (pick_sheet, pick_sheet_fit, e) refl)
