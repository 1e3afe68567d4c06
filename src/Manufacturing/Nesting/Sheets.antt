-- ===== src/Manufacturing/Nesting/Sheets.antt =====
-- The layout of the sheets of `nestGroup`.
use stair_platform.Prelude.{
  ◌≡◌, refl, inl, inr, some, List, [], ◌∷◌, ◌++◌, Bool-cases, Option-cases, All, Float, origin, Le,
  IsOrdered, sort_by, All-sort_by, All-append, All_map,
}
use stair_platform.Manufacturing.Stock.{StockSheet}
use stair_platform.Manufacturing.Nesting.{
  CutRect, PlacedPart, Shelf, SheetLayout, Progress, placed_at, effective_length, effective_width,
  place_open, put, new_sheet, make_room, open_shelf, place, place_all, nest_group, initial, before,
}
use stair_platform.Manufacturing.Nesting.Shelves.{
  right, top, below, On, Held, Stacked, Solid, Stacked-le, Held-levels, Held-top, plus_nonneg,
  place_open-Placed,
}
use stair_platform.Manufacturing.Nesting.Layouts.{
  IsLaid, put-IsLaid, Held-append, Held-last, Stacked-append,
}

module _ (f : Float) (kerf : f.Carrier) where
  module _ (o : IsOrdered f) (sheet : StockSheet f) (thickness : f.Carrier) where
    -- The cut parts fit the empty sheet.
    abbrev pub FitsSheet : CutRect f → Type 0
    FitsSheet r =
        Solid f kerf r
        × Le f (effective_length f kerf r) sheet.length
        × Le f (effective_width f kerf r) sheet.width

    abbrev pub CutFrom : SheetLayout f → Type 0
    CutFrom l =
        (l.material_code ≡ sheet.material_code)
        × (l.thickness ≡ thickness)
        × (l.length ≡ sheet.length)
        × (l.width ≡ sheet.width)

    pub record Inv (st : Progress f) : Type 0 where
      pub finished : All (λ l. IsLaid f kerf l × CutFrom l) st.layouts
      pub laid : IsLaid f kerf st.current
      pub cut : CutFrom st.current
      pub stacked : Stacked f kerf (origin f) st.open_shelves st.cur_y
      pub held : All (Held f kerf st.open_shelves) st.current.placed
      pub room : Le f st.cur_y sheet.width

    place_open-Inv :
        (r : CutRect f) (st : Progress f) (ss : List (Shelf f)) (q : PlacedPart f)
        → FitsSheet r
        → Inv st
        → place_open f kerf sheet.length r st.open_shelves ≡ some (ss, q)
        → Inv (record st { current = put f kerf q st.current; open_shelves = ss })
    unfolding put
    place_open-Inv r st ss q fits i e =
        let pl =
          place_open-Placed f kerf o sheet.length r fits.0 st.open_shelves ss (origin f) st.cur_y q
            o.origin_le i.stacked e in
        let all_kept = All_map (λ p h. pl.kept p h) st.current.placed i.held in
        record {
          finished = i.finished;
          laid =
              put-IsLaid f kerf st.current q i.laid
                (All_map (λ p k. k.1) st.current.placed all_kept)
                (
                  pl.beyond_edge,
                  Held-levels f kerf o ss (origin f) st.cur_y q o.origin_le pl.stacked pl.held,
                  rw i.cut.2 pl.inside,
                  rw i.cut.3 (
                      o.le_trans (top f kerf q) st.cur_y sheet.width
                        (Held-top f kerf o ss (origin f) st.cur_y q o.origin_le pl.stacked pl.held)
                        i.room),
                );
          cut = i.cut;
          stacked = pl.stacked;
          held =
              All-append (Held f kerf ss) st.current.placed (q ∷ [])
                (All_map (λ p k. k.0) st.current.placed all_kept) (pl.held, tt);
          room = i.room;
        }

    open_shelf-Inv :
        (r : CutRect f) (st : Progress f)
        → FitsSheet r
        → Inv st
        → Le f (f.plus st.cur_y (effective_width f kerf r)) sheet.width
        → Inv (open_shelf f kerf sheet thickness r st)
    unfolding open_shelf put
    open_shelf-Inv r st fits i room =
        let s : Shelf f = record {
          y = st.cur_y;
          used_x = effective_length f kerf r;
          height = effective_width f kerf r;
        } in
        let q = placed_at f r (origin f) st.cur_y in
        let above_edge =
          Stacked-le f kerf o st.open_shelves (origin f) st.cur_y o.origin_le i.stacked in
        let end = o.origin_plus (effective_length f kerf r) fits.0.0 in
        let on_q : On f kerf q s = record {
          level = refl;
          used = end;
          tall = o.le_refl (effective_width f kerf r) fits.0.1;
          solid = fits.0.1;
        } in
        record {
          finished = i.finished;
          laid =
              put-IsLaid f kerf st.current q i.laid
                (All_map
                  (λ p h. below (
                    Held-top f kerf o st.open_shelves (origin f) st.cur_y p o.origin_le i.stacked
                      h))
                  st.current.placed i.held)
                (
                  o.origin_le,
                  above_edge,
                  rw i.cut.2 (
                      o.le_trans (right f kerf q) (effective_length f kerf r) sheet.length end
                        fits.1),
                  rw i.cut.3 room,
                );
          cut = i.cut;
          stacked =
              Stacked-append f kerf st.open_shelves s (origin f) st.cur_y i.stacked refl fits.0.0
                fits.0.1;
          held =
              All-append (Held f kerf (st.open_shelves ++ s ∷ [])) st.current.placed (q ∷ [])
                (All_map (λ p h. Held-append f kerf st.open_shelves (s ∷ []) p h) st.current.placed
                  i.held)
                (Held-last f kerf st.open_shelves s q on_q, tt);
          room = room;
        }

    make_room-Inv :
        (r : CutRect f) (st : Progress f)
        → FitsSheet r
        → Le f (origin f) sheet.width
        → Inv st
        → Inv (make_room f kerf sheet thickness r st)
          × Le f
              (f.plus (make_room f kerf sheet thickness r st).cur_y (effective_width f kerf r))
              sheet.width
    unfolding make_room new_sheet
    make_room-Inv r st fits wide i =
        let next = f.plus st.cur_y (effective_width f kerf r) in
        elim (Bool-cases (f.lt sheet.width next)) [
          | inl full ↦
              rw (full, make_room)
                (
                  record {
                    finished =
                        All-append (λ l. IsLaid f kerf l × CutFrom l) st.layouts (st.current ∷ [])
                          i.finished ((i.laid, i.cut), tt);
                    laid = record { clear = tt; inside = tt };
                    cut = (refl, refl, refl, refl);
                    stacked = refl;
                    held = tt;
                    room = wide;
                  },
                  o.le_trans (f.plus (origin f) (effective_width f kerf r))
                      (effective_width f kerf r) sheet.width
                      (o.origin_plus (effective_width f kerf r) fits.0.1) fits.2,
                )
          | inr left ↦
              let risen =
                Stacked-le f kerf o st.open_shelves (origin f) st.cur_y o.origin_le i.stacked in
              rw (left, make_room)
                (
                  i,
                  o.le_of_not_lt sheet.width next wide
                      (plus_nonneg f kerf o st.cur_y (effective_width f kerf r) risen fits.0.1)
                      left,
                )
        ]

    place-Inv :
        (r : CutRect f) (st : Progress f)
        → FitsSheet r
        → Le f (origin f) sheet.width
        → Inv st
        → Inv (place f kerf sheet thickness r st)
    unfolding place
    place-Inv r st fits wide i =
        elim (Option-cases (place_open f kerf sheet.length r st.open_shelves)) [
          | inr ((ss, q), e) ↦ rw (e, place) (place_open-Inv r st ss q fits i e)
          | inl e ↦
              let (i', room) = make_room-Inv r st fits wide i in
              rw (e, place) (open_shelf-Inv r (make_room f kerf sheet thickness r st) fits i' room)
        ]

    place_all-Inv :
        (rs : List (CutRect f)) (st : Progress f)
        → All FitsSheet rs
        → Le f (origin f) sheet.width
        → Inv st
        → Inv (place_all f kerf sheet thickness rs st)
    unfolding place_all
    place_all-Inv [] st a wide i = i
    place_all-Inv (r ∷ rs) st a wide i =
        place_all-Inv rs (place f kerf sheet thickness r st) a.1 wide (place-Inv r st a.0 wide i)

    initial-Inv : Le f (origin f) sheet.width → Inv (initial f kerf sheet thickness)
    unfolding new_sheet
    initial-Inv wide = record {
      finished = tt;
      laid = record { clear = tt; inside = tt };
      cut = (refl, refl, refl, refl);
      stacked = refl;
      held = tt;
      room = wide;
    }

    pub nest_group-IsLaid :
        (rects : List (CutRect f))
        → All FitsSheet rects
        → Le f (origin f) sheet.width
        → All (λ l. IsLaid f kerf l × CutFrom l) (nest_group f kerf sheet thickness rects)
    unfolding nest_group
    nest_group-IsLaid rects a wide =
        let sorted = sort_by (before f) rects in
        let i =
          place_all-Inv sorted (initial f kerf sheet thickness)
            (All-sort_by (before f) FitsSheet rects a) wide (initial-Inv wide) in
        All-append (λ l. IsLaid f kerf l × CutFrom l) _ (_ ∷ []) i.finished ((i.laid, i.cut), tt)
