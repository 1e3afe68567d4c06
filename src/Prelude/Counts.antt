-- ===== src/Prelude/Counts.antt =====
-- How often a text occurs in a list, and what the sorting of texts keeps of it.
use Prim.Native.Nat.{ℕ, suc, ◌+◌, ◌≤◌}
use mathlib.Core.Path.{◌≡◌, refl}
use mathlib.Core.Logic.{inl, inr}
use mathlib.Core.Bool.{true, false}
use mathlib.Core.List.{List, [], ◌∷◌, ◌++◌, reverse, reverse-append}
use native.Mathlib.Omega.{arith}
use Prim.Native.String.{String}
use text.Mathlib.Text.{◌==◌ as str_eq}
use text.Mathlib.TextEquality.{eq_iff}
use stair_platform.Prelude.Tests.{if◌then◌else◌, ◌==◌, Bool-cases}
use stair_platform.Prelude.Lists.{length}
use stair_platform.Prelude.Sets.{contains, add}
use stair_platform.Prelude.Order.{sink, sort_onto, sort_strings}

unfoldable pub occurs : String → List String → ℕ
occurs x [] = 0
occurs x (y ∷ ys) = if str_eq y x then suc (occurs x ys) else occurs x ys

pub occurs-append :
    (x : String) (ys zs : List String) → occurs x (ys ++ zs) ≡ occurs x ys + occurs x zs
unfolding occurs
occurs-append x [] zs = omega arith
occurs-append x (y ∷ ys) zs = ground (arith, occurs-append x ys zs)

pub occurs-reverse : (x : String) (ys : List String) → occurs x (reverse ys) ≡ occurs x ys
unfolding occurs
occurs-reverse x [] = refl
occurs-reverse x (y ∷ ys) =
    rw (reverse-append (y ∷ []) ys, occurs-append) (ground (arith, occurs-reverse x ys))

pub occurs-sink : (x y : String) (r : List String) → occurs x (sink y r) ≡ occurs x (y ∷ r)
unfolding sink occurs
occurs-sink x y [] = refl
occurs-sink x y (z ∷ r) = ground (arith, occurs-sink x y r)

occurs-sort_onto :
    (x : String) (r ys : List String) → occurs x (sort_onto r ys) ≡ occurs x ys + occurs x r
unfolding sort_onto occurs
occurs-sort_onto x r [] = omega arith
occurs-sort_onto x r (y ∷ ys) = ground (arith, occurs-sort_onto x (sink y r) ys, occurs-sink x y r)

pub occurs-sort_strings : (x : String) (ys : List String) → occurs x (sort_strings ys) ≡ occurs x ys
unfolding sort_strings occurs
occurs-sort_strings x ys = rw occurs-reverse (ground (arith, occurs-sort_onto x [] ys))

pub contains-occurs :
    (x : String) (ys : List String) → contains ys x ≡ (if occurs x ys == 0 then false else true)
unfolding contains occurs
contains-occurs x [] = ground arith
contains-occurs x (y ∷ ys) = ground (arith, contains-occurs x ys)

-- A set stays one.
pub occurs-add : (x y : String) (s : List String) → occurs x s ≤ 1 → occurs x (add y s) ≤ 1
unfolding add occurs
occurs-add x y s h = ground (arith, contains-occurs y s, eq_iff y x)

-- The list without one occurrence.
drop_one : String → List String → List String
drop_one x [] = []
drop_one x (y ∷ ys) = if str_eq y x then ys else y ∷ drop_one x ys

occurs-drop_one :
    (x z : String) (ys : List String)
    → 1 ≤ occurs x ys
    → occurs z (drop_one x ys) + (if str_eq x z then 1 else 0) ≡ occurs z ys
unfolding drop_one occurs
occurs-drop_one x z [] h = ground arith
occurs-drop_one x z (y ∷ ys) h =
    ground (arith, occurs-drop_one x z ys, eq_iff y x, eq_iff x z, eq_iff y z)

length-drop_one :
    (x : String) (ys : List String) → 1 ≤ occurs x ys → length (drop_one x ys) + 1 ≡ length ys
unfolding drop_one occurs
length-drop_one x [] h = ground arith
length-drop_one x (y ∷ ys) h = ground (arith, length-drop_one x ys)

-- A list that has each text at most as often as another is not longer.
pub length-le :
    (xs ys : List String) → ((z : String) → occurs z xs ≤ occurs z ys) → length xs ≤ length ys
unfolding occurs
length-le [] ys h = omega arith
length-le (x ∷ xs) ys h =
    let here : 1 ≤ occurs x ys = ground (arith, h x, eq_iff x x) in
    omega (
      arith,
      length-drop_one x ys here,
      length-le xs (drop_one x ys) (λ z. ground (arith, h z, occurs-drop_one x z ys here)),
    )

-- If it is as long, it has each text as often.
pub occurs-eq :
    (xs ys : List String)
    → ((z : String) → occurs z xs ≤ occurs z ys)
    → length xs ≡ length ys
    → (z : String) → occurs z xs ≡ occurs z ys
unfolding occurs
occurs-eq xs ys h e z = elim (Bool-cases (occurs z xs == occurs z ys)) [
  | inl q ↦ ground (arith, q)
  | inr q ↦
      absurd
        (omega (arith, e, length-le (z ∷ xs) ys (λ w. ground (arith, q, h w, h z, eq_iff z w))))
]
