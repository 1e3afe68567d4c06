-- ===== src/Prelude/Sets.antt =====
-- Go sets of texts (`map[string]struct{}`, `map[string]bool`), as lists.
use mathlib.Core.Path.{◌≡◌, refl}
use mathlib.Core.Bool.{Bool, true, false}
use mathlib.Core.Logic.{◌⊎◌}
use mathlib.Core.List.{List, [], ◌∷◌, ◌++◌}
use native.Mathlib.Omega.{arith}
use Prim.Native.String.{String}
use text.Mathlib.Text.{◌==◌ as str_eq}
use text.Mathlib.TextEquality.{eq_iff}
use stair_platform.Prelude.Tests.{if◌then◌else◌}

unfoldable pub contains : List String → String → Bool
contains [] x = false
contains (v ∷ xs) x = if str_eq v x then true else contains xs x

unfoldable pub add : String → List String → List String
add x s = if contains s x then s else x ∷ s

unfoldable pub remove : String → List String → List String
remove x [] = []
remove x (v ∷ s) = if str_eq v x then remove x s else v ∷ remove x s

pub contains-cons :
    (v x : String) (s : List String)
    → contains (v ∷ s) x ≡ (if str_eq v x then true else contains s x)
unfolding contains
contains-cons v x s = refl

pub contains-nil : (x : String) → contains [] x ≡ false
unfolding contains
contains-nil x = refl

pub contains-add :
    (x y : String) (s : List String)
    → contains (add x s) y ≡ (if str_eq x y then true else contains s y)
unfolding add contains
contains-add x y s = ground (arith, eq_iff x y)

pub contains-remove :
    (x y : String) (s : List String)
    → contains (remove x s) y ≡ (if str_eq x y then false else contains s y)
unfolding remove contains
contains-remove x y [] = ground arith
contains-remove x y (v ∷ s) =
    ground (arith, eq_iff x y, eq_iff v x, eq_iff v y, contains-remove x y s)

pub str_eq_refl : (x : String) → str_eq x x ≡ true
str_eq_refl x = (eq_iff x x).1 refl

pub contains-append :
    (xs ys : List String) (y : String)
    → contains (xs ++ ys) y ≡ (if contains xs y then true else contains ys y)
unfolding contains
contains-append [] ys y = refl
contains-append (x ∷ xs) ys y = ground (arith, contains-append xs ys y)

pub contains-add_self : (x : String) (s : List String) → contains (x ∷ s) x ≡ true
unfolding contains
contains-add_self x s = ground (arith, eq_iff x x)

pub not-contains-nil : (x : String) → contains [] x ≡ true → ⊥
unfolding contains
not-contains-nil x h = cc

pub contains-tail :
    (v x : String) (s : List String) → contains s x ≡ true → contains (v ∷ s) x ≡ true
unfolding contains
contains-tail v x s h = ground arith

-- A member of `v ∷ s` is `v` or a member of `s`.
pub contains-cases :
    (v x : String) (s : List String) → contains (v ∷ s) x ≡ true → (x ≡ v) ⊎ (contains s x ≡ true)
unfolding contains
contains-cases v x s h = ground (arith, eq_iff v x)
