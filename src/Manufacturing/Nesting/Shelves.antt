-- ===== src/Manufacturing/Nesting/Shelves.antt =====
-- The shelves of a sheet and the parts on them.
use stair_platform.Prelude.{
  ◌≡◌, refl, sym, ◌∙◌, ◌⊎◌, inl, inr, ◌&&◌, some, List, [], ◌∷◌, arith, Bool-cases, Option-cases,
  Float, origin, le, Le, IsOrdered,
}
use stair_platform.Manufacturing.Nesting.{
  CutRect, PlacedPart, Shelf, placed_at, effective_length, effective_width, place_open,
}

module _ (f : Float) (kerf : f.Carrier) where
  -- The far edges of a part, the cut included.
  abbrev pub right : PlacedPart f → f.Carrier
  right p = f.plus p.x (f.plus p.length kerf)

  abbrev pub top : PlacedPart f → f.Carrier
  top p = f.plus p.y (f.plus p.width kerf)

  -- Two parts with the width of a cut between them.
  pub data Apart (p q : PlacedPart f) : Type 0 where
    beside : Le f (right p) q.x → Apart p q
    below : Le f (top p) q.y → Apart p q
    above : Le f (top q) p.y → Apart p q

  -- A part stands on a shelf, left of what is free.
  pub record On (p : PlacedPart f) (s : Shelf f) : Type 0 where
    pub level : p.y ≡ s.y
    pub used : Le f (right p) s.used_x
    pub tall : Le f (f.plus p.width kerf) s.height
    pub solid : Le f (origin f) (f.plus p.width kerf)

  abbrev pub Held : List (Shelf f) → PlacedPart f → Type 0
  Held [] p = ⊥
  Held (s ∷ ss) p = On p s ⊎ Held ss p

  -- The shelves lie on one another from a level to the next free one.
  abbrev pub Stacked : f.Carrier → List (Shelf f) → f.Carrier → Type 0
  Stacked y [] cur = y ≡ cur
  Stacked y (s ∷ ss) cur =
      (s.y ≡ y)
      × Le f (origin f) s.used_x
      × Le f (origin f) s.height
      × Stacked (f.plus y s.height) ss cur

  -- A part that is no smaller than nothing.
  abbrev pub Solid : CutRect f → Type 0
  Solid r = Le f (origin f) (effective_length f kerf r) × Le f (origin f) (effective_width f kerf r)

  module _ (o : IsOrdered f) where
    pub plus_nonneg :
        (a b : f.Carrier) → Le f (origin f) a → Le f (origin f) b → Le f (origin f) (f.plus a b)
    plus_nonneg a b h k = o.le_trans (origin f) a (f.plus a b) h (o.le_plus a b h k)

    -- What is on a shelf of a stack ends below the free level and above the first.
    pub Held-levels :
        (ss : List (Shelf f)) (y cur : f.Carrier) (p : PlacedPart f)
        → Le f (origin f) y
        → Stacked y ss cur
        → Held ss p
        → Le f y p.y
    Held-levels [] y cur p n st h = absurd h
    Held-levels (s ∷ ss) y cur p n st (inl on) = rw (on.level ∙ st.0) (o.le_refl y n)
    Held-levels (s ∷ ss) y cur p n st (inr h) =
        o.le_trans y (f.plus y s.height) p.y (o.le_plus y s.height n st.2)
          (Held-levels ss (f.plus y s.height) cur p (plus_nonneg y s.height n st.2) st.3 h)

    pub Stacked-le :
        (ss : List (Shelf f)) (y cur : f.Carrier)
        → Le f (origin f) y
        → Stacked y ss cur
        → Le f y cur
    Stacked-le [] y cur n e = rw (sym e) (o.le_refl y n)
    Stacked-le (s ∷ ss) y cur n st =
        o.le_trans y (f.plus y s.height) cur (o.le_plus y s.height n st.2)
          (Stacked-le ss (f.plus y s.height) cur (plus_nonneg y s.height n st.2) st.3)

    -- The top of what stands on a shelf.
    On-top :
        (s : Shelf f) (y : f.Carrier) (p : PlacedPart f)
        → Le f (origin f) y
        → s.y ≡ y
        → On p s
        → Le f (top p) (f.plus y s.height)
    On-top s y p n e on =
        rw (on.level ∙ e)
          (o.plus_mono y (f.plus p.width kerf) y s.height n on.solid (o.le_refl y n) on.tall)

    pub Held-top :
        (ss : List (Shelf f)) (y cur : f.Carrier) (p : PlacedPart f)
        → Le f (origin f) y
        → Stacked y ss cur
        → Held ss p
        → Le f (top p) cur
    Held-top [] y cur p n st h = absurd h
    Held-top (s ∷ ss) y cur p n st (inl on) =
        let n' = plus_nonneg y s.height n st.2 in
        o.le_trans (top p) (f.plus y s.height) cur (On-top s y p n st.0 on)
          (Stacked-le ss (f.plus y s.height) cur n' st.3)
    Held-top (s ∷ ss) y cur p n st (inr h) =
        Held-top ss (f.plus y s.height) cur p (plus_nonneg y s.height n st.2) st.3 h

    module _ (sheet_len : f.Carrier) (r : CutRect f) (solid : Solid r) where
      -- What `place_open` gives: the new shelves hold the part and all that was held, apart from it.
      pub record Placed (y cur : f.Carrier) (ss ss' : List (Shelf f)) (q : PlacedPart f)
          : Type 0 where
        pub stacked : Stacked y ss' cur
        pub held : Held ss' q
        pub kept : (p : PlacedPart f) → Held ss p → Held ss' p × Apart p q
        pub inside : Le f (right q) sheet_len
        pub beyond_edge : Le f (origin f) q.x

      Placed-here :
          (s : Shelf f) (ss : List (Shelf f)) (y cur : f.Carrier)
          → Le f (origin f) y
          → Stacked y (s ∷ ss) cur
          → Le f (f.plus s.used_x (effective_length f kerf r)) sheet_len
          → Le f (effective_width f kerf r) s.height
          → Placed y cur
              (s ∷ ss)
              (record s { used_x = f.plus s.used_x (effective_length f kerf r) } ∷ ss)
              (placed_at f r s.used_x s.y)
      Placed-here s ss y cur n st long tall =
          let q = placed_at f r s.used_x s.y in
          let used' = f.plus s.used_x (effective_length f kerf r) in
          let used'_nonneg = plus_nonneg s.used_x (effective_length f kerf r) st.1 solid.0 in
          let on_q : On q (record s { used_x = used' }) = record {
            level = refl;
            used = o.le_refl used' used'_nonneg;
            tall = tall;
            solid = solid.1;
          } in
          record {
            stacked = (st.0, used'_nonneg, st.2, st.3);
            held = inl on_q;
            kept = λ p h. elim h [
              | inl on ↦ (
                inl (record {
                  level = on.level;
                  used =
                      o.le_trans (right p) s.used_x used' on.used
                        (o.le_plus s.used_x (effective_length f kerf r) st.1 solid.0);
                  tall = on.tall;
                  solid = on.solid;
                }),
                beside on.used,
              )
              | inr rest ↦ (
                inr rest,
                above (
                    o.le_trans (top q) (f.plus y s.height) p.y
                      (On-top (record s { used_x = used' }) y q n st.0 on_q)
                      (Held-levels ss (f.plus y s.height) cur p (plus_nonneg y s.height n st.2) st.3
                        rest)),
              )
            ];
            inside = long;
            beyond_edge = st.1;
          }

      Placed-later :
          (s : Shelf f) (ss ss' : List (Shelf f)) (y cur : f.Carrier) (q : PlacedPart f)
          → Le f (origin f) y
          → Stacked y (s ∷ ss) cur
          → Placed (f.plus y s.height) cur ss ss' q
          → Placed y cur (s ∷ ss) (s ∷ ss') q
      Placed-later s ss ss' y cur q n st pl = record {
        stacked = (st.0, st.1, st.2, pl.stacked);
        held = inr pl.held;
        kept = λ p h. elim h [
          | inl on ↦ (
            inl on,
            below (
                o.le_trans (top p) (f.plus y s.height) q.y (On-top s y p n st.0 on) (
                  Held-levels ss' (f.plus y s.height) cur q (plus_nonneg y s.height n st.2)
                    pl.stacked pl.held)),
          )
          | inr rest ↦ (inr (pl.kept p rest).0, (pl.kept p rest).1)
        ];
        inside = pl.inside;
        beyond_edge = pl.beyond_edge;
      }

      pub place_open-Placed :
          (ss ss' : List (Shelf f)) (y cur : f.Carrier) (q : PlacedPart f)
          → Le f (origin f) y
          → Stacked y ss cur
          → place_open f kerf sheet_len r ss ≡ some (ss', q)
          → Placed y cur ss ss' q
      unfolding place_open
      place_open-Placed [] ss' y cur q n st h = absurd (ground arith)
      place_open-Placed (s ∷ ss) ss' y cur q n st h =
          let long = le f (f.plus s.used_x (effective_length f kerf r)) sheet_len in
          let tall = le f (effective_width f kerf r) s.height in
          elim (Bool-cases (long && tall)) [
            | inl fits ↦
                let e0 : ss'
                    ≡ record s { used_x = f.plus s.used_x (effective_length f kerf r) } ∷ ss =
                  ground arith in
                let e1 : q ≡ placed_at f r s.used_x s.y = ground arith in
                rw (e0, e1) (Placed-here s ss y cur n st (ground arith) (ground arith))
            | inr full ↦ elim (Option-cases (place_open f kerf sheet_len r ss)) [
              | inl nowhere ↦ absurd (ground arith)
              | inr ((ss'', q'), e) ↦
                  let e0 : ss' ≡ s ∷ ss'' = ground (arith, e) in
                  let e1 : q ≡ q' = ground (arith, e) in
                  rw (e0, e1)
                    (Placed-later s ss ss'' y cur q' n st (
                      place_open-Placed ss ss'' (f.plus y s.height) cur q'
                        (plus_nonneg y s.height n st.2) st.3 e))
            ]
          ]
