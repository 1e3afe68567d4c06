-- ===== src/Prelude/Order.antt =====
-- Go's order of texts and the insertion sort that the platform writes out by hand.
use Prim.Native.Nat.{compare, Ordering}
use Prim.Native.Char.{code}
use mathlib.Core.Bool.{Bool, true, false}
use mathlib.Core.List.{List, [], ◌∷◌, reverse, reverse-append}
use Prim.Native.String.{String}
use mathlib.Core.Path.{◌≡◌, refl}
use native.Mathlib.Omega.{arith}
use text.Mathlib.Text.{◌==◌ as str_eq}
use stair_platform.Prelude.Tests.{if◌then◌else◌}
use stair_platform.Prelude.Sets.{contains, contains-append, contains-nil}

-- `<` on strings. Go compares bytes; on UTF-8 that is the order of the code points.
unfoldable pub str_lt : String → String → Bool
str_lt s String.[] = false
str_lt String.[] (String.◌∷◌ d t) = true
str_lt (String.◌∷◌ c s) (String.◌∷◌ d t) = elim (compare (code c) (code d)) [
  | Ordering.lt ↦ true
  | Ordering.eq ↦ str_lt s t
  | Ordering.gt ↦ false
]

-- A value moves left past the greater ones before it: the inner loop of the insertion sorts, over
-- the reversed prefix.
unfoldable pub sink : String → List String → List String
sink x [] = x ∷ []
sink x (y ∷ r) = if str_lt x y then y ∷ sink x r else x ∷ y ∷ r

unfoldable pub sort_onto : List String → List String → List String
sort_onto r [] = r
sort_onto r (x ∷ xs) = sort_onto (sink x r) xs

unfoldable pub sort_strings : List String → List String
unfolding sort_onto
sort_strings xs = reverse (sort_onto [] xs)

contains-reverse : (xs : List String) (y : String) → contains (reverse xs) y ≡ contains xs y
unfolding contains
contains-reverse [] y = refl
contains-reverse (x ∷ xs) y =
    rw (reverse-append (x ∷ []) xs, contains-append) (ground (arith, contains-reverse xs y))

pub contains-sink :
    (x y : String) (r : List String)
    → contains (sink x r) y ≡ (if str_eq x y then true else contains r y)
unfolding sink contains
contains-sink x y [] = refl
contains-sink x y (z ∷ r) = ground (arith, contains-sink x y r)

contains-sort_onto :
    (r xs : List String) (y : String)
    → contains (sort_onto r xs) y ≡ (if contains xs y then true else contains r y)
unfolding sort_onto contains
contains-sort_onto r [] y = refl
contains-sort_onto r (x ∷ xs) y =
    ground (arith, contains-sort_onto (sink x r) xs y, contains-sink x y r)

pub contains-sort_strings :
    (xs : List String) (y : String) → contains (sort_strings xs) y ≡ contains xs y
unfolding sort_strings
contains-sort_strings xs y =
    rw contains-reverse (ground (arith, contains-sort_onto [] xs y, contains-nil y))
