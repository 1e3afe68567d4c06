-- ===== src/Prelude/Sorting.antt =====
-- `sort.SliceStable`: a sort that keeps the order of elements that are not ordered.
use mathlib.Core.Bool.{Bool}
use mathlib.Core.List.{List, [], ◌∷◌, ◌++◌, Perm, perm_middle, append-nil}
use mathlib.Core.List.Perm
use mathlib.Core.Logic.{inl, inr}
use stair_platform.Prelude.Lists.{All}
use stair_platform.Prelude.Tests.{if◌then◌else◌, Bool-cases}

module _ {ℓ} {A : Type ℓ} (less : A → A → Bool) where
  -- An element goes behind those that it is not less than.
  unfoldable pub insert_by : A → List A → List A
  insert_by x [] = x ∷ []
  insert_by x (y ∷ ys) = if less x y then x ∷ y ∷ ys else y ∷ insert_by x ys

  unfoldable pub insert_each : List A → List A → List A
  insert_each [] sorted = sorted
  insert_each (x ∷ xs) sorted = insert_each xs (insert_by x sorted)

  unfoldable pub sort_by : List A → List A
  unfolding insert_by insert_each
  sort_by xs = insert_each xs []

  insert_by-perm : (x : A) (ys : List A) → Perm (insert_by x ys) (x ∷ ys)
  unfolding insert_by
  insert_by-perm x [] = Perm.rfl
  insert_by-perm x (y ∷ ys) = elim (Bool-cases (less x y)) [
    | inl e ↦ rw (e, insert_by) Perm.rfl
    | inr e ↦ rw (e, insert_by) (Perm.trans (Perm.cons y (insert_by-perm x ys)) (Perm.swap x y ys))
  ]

  insert_each-perm : (xs sorted : List A) → Perm (insert_each xs sorted) (xs ++ sorted)
  unfolding insert_each
  insert_each-perm [] sorted = Perm.rfl
  insert_each-perm (x ∷ xs) sorted =
      Perm.trans (insert_each-perm xs (insert_by x sorted))
        (Perm.trans (Perm.append_left xs (insert_by-perm x sorted)) (perm_middle xs sorted))

  pub sort_by-perm : (xs : List A) → Perm (sort_by xs) xs
  unfolding sort_by
  sort_by-perm xs = rw append-nil at (insert_each-perm xs [])

  insert_by-All {κ} :
      (Good : A → Type κ) (x : A) (ys : List A) → Good x → All Good ys → All Good (insert_by x ys)
  unfolding insert_by
  insert_by-All Good x [] g a = (g, tt)
  insert_by-All Good x (y ∷ ys) g a = elim (Bool-cases (less x y)) [
    | inl e ↦ rw (e, insert_by) (g, a)
    | inr e ↦ rw (e, insert_by) (a.0, insert_by-All Good x ys g a.1)
  ]

  insert_each-All {κ} :
      (Good : A → Type κ) (xs sorted : List A)
      → All Good xs
      → All Good sorted
      → All Good (insert_each xs sorted)
  unfolding insert_each
  insert_each-All Good [] sorted a b = b
  insert_each-All Good (x ∷ xs) sorted a b =
      insert_each-All Good xs (insert_by x sorted) a.1 (insert_by-All Good x sorted a.0 b)

  pub All-sort_by {κ} : (Good : A → Type κ) (xs : List A) → All Good xs → All Good (sort_by xs)
  unfolding sort_by
  All-sort_by Good xs a = insert_each-All Good xs [] a tt
