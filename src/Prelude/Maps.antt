-- ===== src/Prelude/Maps.antt =====
-- Go maps with text keys, as association lists. The order of the list stands for the order in
-- which a `range` loop meets the keys; the theorems quantify over it.
use mathlib.Core.Path.{◌≡◌, refl}
use mathlib.Core.List.{List, [], ◌∷◌}
use mathlib.Core.Option.{Option, none, some}
use native.Mathlib.Omega.{arith}
use Prim.Native.String.{String}
use text.Mathlib.Text.{◌==◌ as str_eq}
use text.Mathlib.TextEquality.{eq_iff}
use text.Mathlib.TextPositions.{eq_refl}
use Prim.Native.Nat.{◌+◌}
use stair_platform.Prelude.Tests.{if◌then◌else◌, is_some}
use stair_platform.Prelude.Lists.{length}

module _ {ℓ} {V : Type ℓ} where
  unfoldable pub lookup : String → List (String × V) → Option V
  lookup key [] = none
  lookup key ((first, value) ∷ entries) =
      if str_eq first key then some value else lookup key entries

  unfoldable pub insert : String → V → List (String × V) → List (String × V)
  insert key value [] = (key, value) ∷ []
  insert key value ((first, old) ∷ entries) =
      if str_eq first key then (key, value) ∷ entries else (first, old) ∷ insert key value entries

  -- `delete(m, k)`
  unfoldable pub erase : String → List (String × V) → List (String × V)
  erase k [] = []
  erase k ((j, w) ∷ m) = if str_eq j k then erase k m else (j, w) ∷ erase k m

  -- A write shows at its own key and nowhere else.
  pub lookup-insert :
      (key other : String) (value : V) (entries : List (String × V))
      → lookup other (insert key value entries)
        ≡ (if str_eq key other then some value else lookup other entries)
  unfolding lookup insert
  lookup-insert key other value [] = refl
  lookup-insert key other value ((first, old) ∷ entries) = ground (
    arith,
    lookup-insert key other value entries,
    eq_iff first other,
    eq_iff first key,
    eq_iff key other,
  )

  pub lookup-erase :
      (k j : String) (m : List (String × V))
      → lookup j (erase k m) ≡ (if str_eq k j then none else lookup j m)
  unfolding lookup erase
  lookup-erase k j [] = ground arith
  lookup-erase k j ((i, w) ∷ m) =
      ground (arith, eq_iff k j, eq_iff i k, eq_iff i j, lookup-erase k j m)

  pub lookup-insert_self :
      (key : String) (value : V) (entries : List (String × V))
      → lookup key (insert key value entries) ≡ some value
  lookup-insert_self key value entries = simp (lookup-insert, eq_refl)

  pub length-insert :
      (key : String) (value : V) (entries : List (String × V))
      → length (insert key value entries)
        ≡ (if is_some (lookup key entries) then length entries else length entries + 1)
  unfolding lookup insert
  length-insert key value [] = refl
  length-insert key value ((first, old) ∷ entries) = ground (arith, length-insert key value entries)
