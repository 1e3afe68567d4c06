-- ===== src/Events/Bus/Priority.antt =====
-- The order in which an event reaches its subscribers.
use stair_platform.Prelude.{
  ℕ, ◌+◌, ◌≤◌, String, ◌≡◌, refl, sym, inl, inr, true, false, some, List, [], ◌∷◌, ◌++◌, arith,
  ◌==◌, if◌then◌else◌, ltb→lt, Bool-cases, Option-cases, All, ℤ, pos_part, neg_part, sub_ℕ, ltb_ℤ,
  is_zero, eq_ℤ,
}
use mathlib.Core.List.{reverse, reverse-append, reverse-reverse, append-nil}
use stair_platform.Events.Bus.{HandlerEntry, settle, add_entry, cut}

abbrev pub AtMost : ℤ → ℤ → Type 0
AtMost a b = pos_part a + neg_part b ≤ pos_part b + neg_part a

is_zero-sub_ℕ : (m n : ℕ) → is_zero (sub_ℕ m n) ≡ (m == n)
is_zero-sub_ℕ m n = ground arith

not_both : (a b p : ℤ) → ltb_ℤ a b ≡ true → eq_ℤ a p ≡ true → eq_ℤ b p ≡ false
not_both a b p l e = ground (
  arith,
  ltb→lt (pos_part a + neg_part b) (pos_part b + neg_part a) l,
  is_zero-sub_ℕ (pos_part a + neg_part p) (pos_part p + neg_part a),
  is_zero-sub_ℕ (pos_part b + neg_part p) (pos_part p + neg_part b),
)

module _ {H : Type 0} where
  abbrev Above : ℤ → List (HandlerEntry H) → Type 0
  Above p = All (λ e. AtMost p e.priority)

  abbrev Below : ℤ → List (HandlerEntry H) → Type 0
  Below p = All (λ e. AtMost e.priority p)

  -- No entry is behind one of a greater priority.
  unfoldable pub IsSorted : List (HandlerEntry H) → Type 0
  IsSorted [] = Unit
  IsSorted (e ∷ es) = Above e.priority es × IsSorted es

  -- The entries of one priority, in order.
  unfoldable pub of_priority : ℤ → List (HandlerEntry H) → List (HandlerEntry H)
  of_priority p [] = []
  of_priority p (e ∷ es) =
      let rest = of_priority p es in if eq_ℤ e.priority p then e ∷ rest else rest

  -- The reversed list, sorted.
  unfoldable IsFalling : List (HandlerEntry H) → Type 0
  IsFalling [] = Unit
  IsFalling (e ∷ es) = Below e.priority es × IsFalling es

  Below-settle :
      (p : ℤ) (x : HandlerEntry H) (r : List (HandlerEntry H))
      → AtMost x.priority p
      → Below p r
      → Below p (settle x r)
  unfolding settle
  Below-settle p x [] l a = (l, tt)
  Below-settle p x (y ∷ r) l a = ground (arith, Below-settle p x r)

  Below-mono : (p q : ℤ) (r : List (HandlerEntry H)) → AtMost p q → Below p r → Below q r
  Below-mono p q [] l a = tt
  Below-mono p q (y ∷ r) l a = (omega (arith, l, a.0), Below-mono p q r l a.1)

  settle-IsFalling :
      (x : HandlerEntry H) (r : List (HandlerEntry H)) → IsFalling r → IsFalling (settle x r)
  unfolding settle IsFalling
  settle-IsFalling x [] s = (tt, tt)
  settle-IsFalling x (y ∷ r) s = elim (Bool-cases (ltb_ℤ x.priority y.priority)) [
    | inl less ↦ rw less (Below-settle y.priority x r (ground arith) s.0, settle-IsFalling x r s.1)
    | inr not_less ↦
        rw not_less ((ground arith, Below-mono y.priority x.priority r (ground arith) s.0), s)
  ]

  Above-snoc :
      (p : ℤ) (xs : List (HandlerEntry H)) (y : HandlerEntry H)
      → Above p xs
      → AtMost p y.priority
      → Above p (xs ++ y ∷ [])
  Above-snoc p [] y a l = (l, tt)
  Above-snoc p (x ∷ xs) y a l = (a.0, Above-snoc p xs y a.1 l)

  Below-snoc :
      (p : ℤ) (xs : List (HandlerEntry H)) (y : HandlerEntry H)
      → Below p xs
      → AtMost y.priority p
      → Below p (xs ++ y ∷ [])
  Below-snoc p [] y a l = (l, tt)
  Below-snoc p (x ∷ xs) y a l = (a.0, Below-snoc p xs y a.1 l)

  IsSorted-snoc :
      (xs : List (HandlerEntry H)) (y : HandlerEntry H)
      → IsSorted xs
      → Below y.priority xs
      → IsSorted (xs ++ y ∷ [])
  unfolding IsSorted
  IsSorted-snoc [] y s b = (tt, tt)
  IsSorted-snoc (x ∷ xs) y s b = (Above-snoc x.priority xs y s.0 b.0, IsSorted-snoc xs y s.1 b.1)

  IsFalling-snoc :
      (xs : List (HandlerEntry H)) (y : HandlerEntry H)
      → IsFalling xs
      → Above y.priority xs
      → IsFalling (xs ++ y ∷ [])
  unfolding IsFalling
  IsFalling-snoc [] y s b = (tt, tt)
  IsFalling-snoc (x ∷ xs) y s b = (Below-snoc x.priority xs y s.0 b.0, IsFalling-snoc xs y s.1 b.1)

  Below-reverse : (p : ℤ) (xs : List (HandlerEntry H)) → Below p xs → Below p (reverse xs)
  Below-reverse p [] b = tt
  Below-reverse p (x ∷ xs) b =
      rw (reverse-append (x ∷ []) xs) (Below-snoc p (reverse xs) x (Below-reverse p xs b.1) b.0)

  Above-reverse : (p : ℤ) (xs : List (HandlerEntry H)) → Above p xs → Above p (reverse xs)
  Above-reverse p [] b = tt
  Above-reverse p (x ∷ xs) b =
      rw (reverse-append (x ∷ []) xs) (Above-snoc p (reverse xs) x (Above-reverse p xs b.1) b.0)

  reverse-IsSorted : (xs : List (HandlerEntry H)) → IsFalling xs → IsSorted (reverse xs)
  unfolding IsFalling IsSorted
  reverse-IsSorted [] f = tt
  reverse-IsSorted (x ∷ xs) f =
      rw (reverse-append (x ∷ []) xs)
        (IsSorted-snoc (reverse xs) x (reverse-IsSorted xs f.1) (Below-reverse x.priority xs f.0))

  reverse-IsFalling : (xs : List (HandlerEntry H)) → IsSorted xs → IsFalling (reverse xs)
  unfolding IsFalling IsSorted
  reverse-IsFalling [] f = tt
  reverse-IsFalling (x ∷ xs) f =
      rw (reverse-append (x ∷ []) xs)
        (IsFalling-snoc (reverse xs) x (reverse-IsFalling xs f.1) (Above-reverse x.priority xs f.0))

  pub add_entry-IsSorted :
      (x : HandlerEntry H) (es : List (HandlerEntry H)) → IsSorted es → IsSorted (add_entry x es)
  unfolding add_entry
  add_entry-IsSorted x es s =
      reverse-IsSorted (settle x (reverse es))
        (settle-IsFalling x (reverse es) (reverse-IsFalling es s))

  of_priority-append :
      (p : ℤ) (xs ys : List (HandlerEntry H))
      → of_priority p (xs ++ ys) ≡ of_priority p xs ++ of_priority p ys
  unfolding of_priority
  of_priority-append p [] ys = refl
  of_priority-append p (x ∷ xs) ys = ground (arith, of_priority-append p xs ys)

  of_priority-reverse :
      (p : ℤ) (xs : List (HandlerEntry H)) → of_priority p (reverse xs) ≡ reverse (of_priority p xs)
  unfolding of_priority
  of_priority-reverse p [] = refl
  of_priority-reverse p (x ∷ xs) =
      rw (reverse-append (x ∷ []) xs, of_priority-append, of_priority-reverse p xs)
        (elim (Bool-cases (eq_ℤ x.priority p)) [
          | inl same ↦ rw (same, reverse-append (x ∷ []) (of_priority p xs)) refl
          | inr other ↦ rw other (append-nil (reverse (of_priority p xs)))
        ])

  settle_nil : (x : HandlerEntry H) → settle x [] ≡ x ∷ []
  unfolding settle
  settle_nil x = refl

  settle_less :
      (x y : HandlerEntry H) (r : List (HandlerEntry H))
      → ltb_ℤ x.priority y.priority ≡ true
      → settle x (y ∷ r) ≡ y ∷ settle x r
  unfolding settle
  settle_less x y r less = rw less refl

  settle_not_less :
      (x y : HandlerEntry H) (r : List (HandlerEntry H))
      → ltb_ℤ x.priority y.priority ≡ false
      → settle x (y ∷ r) ≡ x ∷ y ∷ r
  unfolding settle
  settle_not_less x y r not_less = rw not_less refl

  -- Two entries of different priorities change places.
  swap :
      (p : ℤ) (x y : HandlerEntry H) (s r : List (HandlerEntry H))
      → (eq_ℤ x.priority p ≡ true → eq_ℤ y.priority p ≡ false)
      → of_priority p s ≡ of_priority p (x ∷ r)
      → of_priority p (y ∷ s) ≡ of_priority p (x ∷ y ∷ r)
  unfolding of_priority
  swap p x y s r h e = elim (Bool-cases (eq_ℤ x.priority p)) [
    | inl same ↦ rw (same, h same) (rw same at e)
    | inr other ↦ rw (other, e) (rw other refl)
  ]

  of_priority-settle :
      (p : ℤ) (x : HandlerEntry H) (r : List (HandlerEntry H))
      → of_priority p (settle x r) ≡ of_priority p (x ∷ r)
  of_priority-settle p x [] = rw settle_nil refl
  of_priority-settle p x (y ∷ r) = elim (Bool-cases (ltb_ℤ x.priority y.priority)) [
    | inl less ↦ rw (settle_less x y r less) (
        swap p x y (settle x r) r (not_both x.priority y.priority p less)
          (of_priority-settle p x r))
    | inr not_less ↦ rw (settle_not_less x y r not_less) refl
  ]

  -- A new entry is the last one of its priority.
  pub of_priority-add_entry :
      (p : ℤ) (x : HandlerEntry H) (es : List (HandlerEntry H))
      → of_priority p (add_entry x es) ≡ of_priority p es ++ of_priority p (x ∷ [])
  unfolding add_entry
  of_priority-add_entry p x es =
      rw
        (
          of_priority-reverse p (settle x (reverse es)),
          of_priority-settle p x (reverse es),
          sym (of_priority-reverse p (x ∷ reverse es)),
          reverse-append (x ∷ []) (reverse es),
          reverse-reverse es,
        )
        (of_priority-append p es (x ∷ []))

  cut-All :
      (p : ℤ) (id : String) (es kept : List (HandlerEntry H))
      → cut id es ≡ some kept
      → Above p es
      → Above p kept
  unfolding cut
  cut-All p id [] kept h a = absurd (ground arith)
  cut-All p id (e ∷ es) kept h a = elim (Option-cases (cut id es)) [
    | inl missing ↦ ground arith
    | inr (rest, found) ↦ ground (arith, cut-All p id es rest found)
  ]

  pub cut-IsSorted :
      (id : String) (es kept : List (HandlerEntry H))
      → cut id es ≡ some kept
      → IsSorted es
      → IsSorted kept
  unfolding cut IsSorted
  cut-IsSorted id [] kept h s = absurd (ground arith)
  cut-IsSorted id (e ∷ es) kept h s = elim (Option-cases (cut id es)) [
    | inl missing ↦ ground arith
    | inr (rest, found) ↦
        ground (arith, cut-IsSorted id es rest found, cut-All e.priority id es rest found)
  ]
