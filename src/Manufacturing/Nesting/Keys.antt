-- ===== src/Manufacturing/Nesting/Keys.antt =====
-- The keys of the groups of `Nest` and their order.
use stair_platform.Prelude.{
  zero, suc, ℕ, ◌<◌, ◌≡◌, refl, ◌∙◌, inl, inr, true, false, List, [], ◌∷◌, ◌++◌, map, eq_iff,
  if◌then◌else◌, pos_part, arith, Bool-cases, All, All-append, Float,
}
use stair_platform.Manufacturing.Nesting.{CutRect}
use stair_platform.Manufacturing.Nesting.Groups.{
  CutItem, Group, Key, same_key, has_group, rects_of, append_rect, append_copies, key_of,
  rect_of_item, group_items,
}

module _ (f : Float) where
  abbrev pub group_key : Group f → Key f
  group_key g = (g.material, g.thickness)

  -- `same_key` looks at the key of the group alone.
  abbrev pub Differs : Key f → Group f → Type 0
  Differs k g = same_key f k g ≡ false

  -- A key that equals itself: its thickness is no NaN.
  abbrev pub Proper : Key f → Type 0
  Proper k = f.eq k.1 k.1 ≡ true

  abbrev pub Distinct : List (Group f) → Type 0
  Distinct [] = Unit
  Distinct (g ∷ gs) = All (λ h. Differs (group_key h) g) gs × Distinct gs

  same_key_self : (g : Group f) → Proper (group_key g) → same_key f (group_key g) g ≡ true
  unfolding same_key
  same_key_self g p = ground (arith, p, eq_iff g.material g.material)

  rects_of-Differs :
      (g : Group f) (gs hs : List (Group f))
      → All (λ h. Differs (group_key h) g) hs
      → All (λ h. rects_of f (group_key h) gs ≡ h.rects) hs
      → All (λ h. rects_of f (group_key h) (g ∷ gs) ≡ h.rects) hs
  unfolding rects_of
  rects_of-Differs g gs [] a b = tt
  rects_of-Differs g gs (h ∷ hs) a b = (rw (a.0, rects_of) b.0, rects_of-Differs g gs hs a.1 b.1)

  -- Each group is found under its key.
  pub rects_of-Distinct :
      (gs : List (Group f))
      → Distinct gs
      → All (λ g. Proper (group_key g)) gs
      → All (λ g. rects_of f (group_key g) gs ≡ g.rects) gs
  unfolding rects_of
  rects_of-Distinct [] d p = tt
  rects_of-Distinct (g ∷ gs) d p = (
    rw (same_key_self g p.0, rects_of) refl,
    rects_of-Differs g gs gs d.0 (rects_of-Distinct gs d.1 p.1),
  )

  keys-append_rect :
      (k : Key f) (r : CutRect f) (gs : List (Group f))
      → map group_key (append_rect f k r gs)
        ≡ (if has_group f k gs then map group_key gs else map group_key gs ++ k ∷ [])
  unfolding append_rect has_group
  keys-append_rect k r [] = refl
  keys-append_rect k r (g ∷ gs) = elim (Bool-cases (same_key f k g)) [
    | inl same ↦ rw (same, append_rect, has_group) refl
    | inr other ↦ ground (arith, other, keys-append_rect k r gs)
  ]

  has_group-append_rect :
      (k : Key f) (r : CutRect f) (gs : List (Group f))
      → Proper k
      → has_group f k (append_rect f k r gs) ≡ true
  unfolding append_rect has_group same_key
  has_group-append_rect k r [] p = ground (arith, p, eq_iff k.0 k.0)
  has_group-append_rect k r (g ∷ gs) p = elim (Bool-cases (same_key f k g)) [
    | inl same ↦ ground (arith, same)
    | inr other ↦ ground (arith, other, has_group-append_rect k r gs p)
  ]

  keys-append_copies :
      (n : ℕ) (k : Key f) (r : CutRect f) (gs : List (Group f))
      → Proper k
      → has_group f k gs ≡ true
      → map group_key (append_copies f n k r gs) ≡ map group_key gs
  unfolding append_copies
  keys-append_copies zero k r gs p h = refl
  keys-append_copies (suc n) k r gs p h =
      keys-append_copies n k r (append_rect f k r gs) p (has_group-append_rect k r gs p)
      ∙ rw (keys-append_rect k r gs, h) refl

  -- The keys after an item of some quantity.
  pub keys_after :
      (n : ℕ) (k : Key f) (r : CutRect f) (gs : List (Group f))
      → Proper k
      → 0 < n
      → map group_key (append_copies f n k r gs)
        ≡ (if has_group f k gs then map group_key gs else map group_key gs ++ k ∷ [])
  unfolding append_copies
  keys_after zero k r gs p h = elim h [ ]
  keys_after (suc n) k r gs p h =
      keys-append_copies n k r (append_rect f k r gs) p (has_group-append_rect k r gs p)
      ∙ keys-append_rect k r gs

  has_group-Differs :
      (k : Key f) (gs : List (Group f)) → has_group f k gs ≡ false → All (Differs k) gs
  unfolding has_group
  has_group-Differs k [] h = tt
  has_group-Differs k (g ∷ gs) h = (ground arith, has_group-Differs k gs (ground arith))

  -- A key that differs from all groups still differs when a part is added under another key.
  append_rect-Differs :
      (k : Key f) (r : CutRect f) (gs : List (Group f)) (g : Group f)
      → All (λ h. Differs (group_key h) g) gs
      → Differs k g
      → All (λ h. Differs (group_key h) g) (append_rect f k r gs)
  unfolding append_rect
  append_rect-Differs k r [] g a d = (d, tt)
  append_rect-Differs k r (h ∷ gs) g a d = elim (Bool-cases (same_key f k h)) [
    | inl same ↦ rw (same, append_rect) a
    | inr other ↦ rw (other, append_rect) (a.0, append_rect-Differs k r gs g a.1 d)
  ]

  append_rect-Distinct :
      (k : Key f) (r : CutRect f) (gs : List (Group f))
      → Distinct gs
      → Distinct (append_rect f k r gs)
  unfolding append_rect same_key
  append_rect-Distinct k r [] d = (tt, tt)
  append_rect-Distinct k r (g ∷ gs) d = elim (Bool-cases (same_key f k g)) [
    | inl same ↦ rw (same, append_rect) d
    | inr other ↦
        rw (other, append_rect)
          (append_rect-Differs k r gs g d.0 other, append_rect-Distinct k r gs d.1)
  ]

  append_copies-Distinct :
      (n : ℕ) (k : Key f) (r : CutRect f) (gs : List (Group f))
      → Distinct gs
      → Distinct (append_copies f n k r gs)
  unfolding append_copies
  append_copies-Distinct zero k r gs d = d
  append_copies-Distinct (suc n) k r gs d =
      append_copies-Distinct n k r (append_rect f k r gs) (append_rect-Distinct k r gs d)

  pub group_items-Distinct :
      (items : List (CutItem f)) (order : List (Key f)) (gs : List (Group f))
      → Distinct gs
      → Distinct (group_items f items order gs).1
  unfolding group_items
  group_items-Distinct [] order gs d = d
  group_items-Distinct (i ∷ items) order gs d =
      group_items-Distinct items
        (if has_group f (key_of f i) gs then order else order ++ key_of f i ∷ [])
        (append_copies f (pos_part i.quantity) (key_of f i) (rect_of_item f i) gs)
        (append_copies-Distinct (pos_part i.quantity) (key_of f i) (rect_of_item f i) gs d)

  -- Where every item has some quantity, the keys of the groups are the order.
  pub group_items-keys :
      (items : List (CutItem f)) (order : List (Key f)) (gs : List (Group f))
      → All (λ i. Proper (key_of f i) × (0 < pos_part i.quantity)) items
      → map group_key gs ≡ order
      → map group_key (group_items f items order gs).1 ≡ (group_items f items order gs).0
  unfolding group_items
  group_items-keys [] order gs a e = e
  group_items-keys (i ∷ items) order gs a e =
      group_items-keys items
        (if has_group f (key_of f i) gs then order else order ++ key_of f i ∷ [])
        (append_copies f (pos_part i.quantity) (key_of f i) (rect_of_item f i) gs) a.1
        (keys_after (pos_part i.quantity) (key_of f i) (rect_of_item f i) gs a.0.0 a.0.1
          ∙ rw e refl)

  -- What holds of the keys of the items holds of the order.
  pub group_items-order :
      (Good : Key f → Type 0) (items : List (CutItem f)) (order : List (Key f))
      (gs : List (Group f))
      → All (λ i. Good (key_of f i)) items
      → All Good order
      → All Good (group_items f items order gs).0
  unfolding group_items
  group_items-order Good [] order gs a b = b
  group_items-order Good (i ∷ items) order gs a b =
      group_items-order Good items
        (if has_group f (key_of f i) gs then order else order ++ key_of f i ∷ [])
        (append_copies f (pos_part i.quantity) (key_of f i) (rect_of_item f i) gs) a.1
        (elim (Bool-cases (has_group f (key_of f i) gs)) [
          | inl old ↦ rw old b
          | inr new ↦ rw new (All-append Good order (key_of f i ∷ []) b (a.0, tt))
        ])
