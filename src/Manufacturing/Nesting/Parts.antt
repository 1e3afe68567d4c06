-- ===== src/Manufacturing/Nesting/Parts.antt =====
-- The parts of a group against the parts on the sheets of `nestGroup`.
use mathlib.Core.List.{Perm, map-append, append_assoc, append-nil}
use stair_platform.Prelude.{
  ◌≡◌, refl, sym, ap, ◌∙◌, inl, inr, ◌&&◌, some, List, [], ◌∷◌, ◌++◌, map, arith, Bool-cases,
  Option-cases, Float, le, sort_by, sort_by-perm,
}
use stair_platform.Manufacturing.Stock.{StockSheet}
use stair_platform.Manufacturing.Nesting.{
  CutRect, PlacedPart, Shelf, SheetLayout, Progress, placed_at, effective_length, effective_width,
  place_open, put, new_sheet, make_room, open_shelf, place, place_all, nest_group, initial, before,
}

module _ (f : Float) where
  abbrev pub rect_of : PlacedPart f → CutRect f
  rect_of p = record { part_number = p.part_number; length = p.length; width = p.width }

  -- The parts on sheets, in order.
  unfoldable pub rects_in : List (SheetLayout f) → List (CutRect f)
  rects_in [] = []
  rects_in (l ∷ ls) = map rect_of l.placed ++ rects_in ls

  pub rects_in-append :
      (ls ms : List (SheetLayout f)) → rects_in (ls ++ ms) ≡ rects_in ls ++ rects_in ms
  unfolding rects_in
  rects_in-append [] ms = refl
  rects_in-append (l ∷ ls) ms = simp (rects_in-append ls ms, append_assoc)

  module _ (kerf : f.Carrier) (sheet : StockSheet f) (thickness : f.Carrier) where
    -- The parts that are placed so far.
    abbrev so_far : Progress f → List (CutRect f)
    so_far st = rects_in st.layouts ++ map rect_of st.current.placed

    place_open-part :
        (r : CutRect f) (ss ss' : List (Shelf f)) (q : PlacedPart f)
        → place_open f kerf sheet.length r ss ≡ some (ss', q)
        → rect_of q ≡ r
    unfolding place_open
    place_open-part r [] ss' q h = absurd (ground arith)
    place_open-part r (s ∷ ss) ss' q h =
        let long = le f (f.plus s.used_x (effective_length f kerf r)) sheet.length in
        let tall = le f (effective_width f kerf r) s.height in
        elim (Bool-cases (long && tall)) [
          | inl fits ↦ let e : q ≡ placed_at f r s.used_x s.y = ground arith in rw e refl
          | inr full ↦ elim (Option-cases (place_open f kerf sheet.length r ss)) [
            | inl nowhere ↦ absurd (ground arith)
            | inr ((ss'', q'), e) ↦
                let e' : q ≡ q' = ground (arith, e) in rw e' (place_open-part r ss ss'' q' e)
          ]
        ]

    put-parts :
        (l : SheetLayout f) (q : PlacedPart f)
        → map rect_of (put f kerf q l).placed ≡ map rect_of l.placed ++ rect_of q ∷ []
    unfolding put
    put-parts l q = map-append rect_of l.placed (q ∷ [])

    make_room-so_far :
        (r : CutRect f) (st : Progress f)
        → so_far (make_room f kerf sheet thickness r st) ≡ so_far st
    unfolding make_room new_sheet rects_in
    make_room-so_far r st =
        elim (Bool-cases (f.lt sheet.width (f.plus st.cur_y (effective_width f kerf r)))) [
          | inl full ↦ rw (full, make_room, rects_in-append) (simp (append-nil))
          | inr left ↦ rw (left, make_room) refl
        ]

    place-so_far :
        (r : CutRect f) (st : Progress f)
        → so_far (place f kerf sheet thickness r st) ≡ so_far st ++ r ∷ []
    unfolding place open_shelf
    place-so_far r st = elim (Option-cases (place_open f kerf sheet.length r st.open_shelves)) [
      | inr ((ss, q), e) ↦
          rw (e, place, put-parts, place_open-part r st.open_shelves ss q e)
            (sym (append_assoc (rects_in st.layouts) (map rect_of st.current.placed) (r ∷ [])))
      | inl e ↦
          let st' = make_room f kerf sheet thickness r st in
          rw (e, place, put-parts)
            (sym (append_assoc (rects_in st'.layouts) (map rect_of st'.current.placed) (r ∷ []))
              ∙ ap (λ rs. rs ++ r ∷ []) (make_room-so_far r st))
    ]

    place_all-so_far :
        (rs : List (CutRect f)) (st : Progress f)
        → so_far (place_all f kerf sheet thickness rs st) ≡ so_far st ++ rs
    unfolding place_all
    place_all-so_far [] st = sym (append-nil (so_far st))
    place_all-so_far (r ∷ rs) st =
        place_all-so_far rs (place f kerf sheet thickness r st)
        ∙ ap (λ done. done ++ rs) (place-so_far r st)
        ∙ append_assoc (so_far st) (r ∷ []) rs

    -- Every part is on a sheet, as often as in the group.
    pub nest_group-perm :
        (rects : List (CutRect f)) → Perm (rects_in (nest_group f kerf sheet thickness rects)) rects
    unfolding nest_group rects_in new_sheet
    nest_group-perm rects =
        let sorted = sort_by (before f) rects in
        let st = place_all f kerf sheet thickness sorted (initial f kerf sheet thickness) in
        let all : rects_in (st.layouts ++ st.current ∷ []) ≡ sorted =
          rects_in-append st.layouts (st.current ∷ [])
          ∙ ap (λ rs. rects_in st.layouts ++ rs) (append-nil (map rect_of st.current.placed))
          ∙ place_all-so_far sorted (initial f kerf sheet thickness) in
        rw all (sort_by-perm (before f) rects)
