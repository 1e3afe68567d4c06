-- ===== src/Manufacturing/Nesting/Layouts.antt =====
-- What a layout of a sheet is to be, and its parts and shelves one by one.
use stair_platform.Prelude.{
  ◌≡◌, refl, sym, ◌∙◌, inl, inr, List, [], ◌∷◌, ◌++◌, All, Float, origin, Le, All-append,
}
use stair_platform.Manufacturing.Nesting.{PlacedPart, Shelf, SheetLayout, put}
use stair_platform.Manufacturing.Nesting.Shelves.{right, top, Apart, On, Held, Stacked}

module _ (f : Float) (kerf : f.Carrier) where
  abbrev pub Inside : f.Carrier → f.Carrier → PlacedPart f → Type 0
  Inside len wid p =
      Le f (origin f) p.x
      × Le f (origin f) p.y
      × Le f (right f kerf p) len
      × Le f (top f kerf p) wid

  -- No two parts overlap, with the width of a cut between them.
  abbrev pub Clear : List (PlacedPart f) → Type 0
  Clear [] = Unit
  Clear (p ∷ ps) = All (λ q. Apart f kerf p q) ps × Clear ps

  pub record IsLaid (l : SheetLayout f) : Type 0 where
    pub clear : Clear l.placed
    pub inside : All (Inside l.length l.width) l.placed

  pub Clear-append :
      (ps : List (PlacedPart f)) (q : PlacedPart f)
      → Clear ps
      → All (λ p. Apart f kerf p q) ps
      → Clear (ps ++ q ∷ [])
  Clear-append [] q c a = (tt, tt)
  Clear-append (p ∷ ps) q c a =
      (All-append (λ x. Apart f kerf p x) ps (q ∷ []) c.0 (a.0, tt), Clear-append ps q c.1 a.1)

  pub put-IsLaid :
      (l : SheetLayout f) (q : PlacedPart f)
      → IsLaid l
      → All (λ p. Apart f kerf p q) l.placed
      → Inside l.length l.width q
      → IsLaid (put f kerf q l)
  unfolding put
  put-IsLaid l q laid apart i = record {
    clear = Clear-append l.placed q laid.clear apart;
    inside = All-append (Inside l.length l.width) l.placed (q ∷ []) laid.inside (i, tt);
  }

  pub Held-append :
      (ss ts : List (Shelf f)) (p : PlacedPart f) → Held f kerf ss p → Held f kerf (ss ++ ts) p
  Held-append [] ts p h = absurd h
  Held-append (s ∷ ss) ts p (inl on) = inl on
  Held-append (s ∷ ss) ts p (inr h) = inr (Held-append ss ts p h)

  pub Held-last :
      (ss : List (Shelf f)) (s : Shelf f) (p : PlacedPart f)
      → On f kerf p s
      → Held f kerf (ss ++ s ∷ []) p
  Held-last [] s p on = inl on
  Held-last (t ∷ ss) s p on = inr (Held-last ss s p on)

  pub Stacked-append :
      (ss : List (Shelf f)) (s : Shelf f) (y cur : f.Carrier)
      → Stacked f kerf y ss cur
      → s.y ≡ cur
      → Le f (origin f) s.used_x
      → Le f (origin f) s.height
      → Stacked f kerf y (ss ++ s ∷ []) (f.plus cur s.height)
  Stacked-append [] s y cur e sy u h = (sy ∙ sym e, u, h, rw e refl)
  Stacked-append (t ∷ ss) s y cur st sy u h =
      (st.0, st.1, st.2, Stacked-append ss s (f.plus y t.height) cur st.3 sy u h)
