-- ===== src/Prelude/Guards.antt =====
-- A row of early returns, `if test { return error }`: the first test that holds gives the error.
use mathlib.Core.Path.{◌≡◌, refl}
use mathlib.Core.Bool.{Bool, false}
use mathlib.Core.List.{List, [], ◌∷◌, ◌++◌}
use mathlib.Core.Option.{Option, none, some}
use native.Mathlib.Omega.{arith}
use stair_platform.Prelude.Tests.{if◌then◌else◌}
use stair_platform.Prelude.Lists.{All}

module _ {E : Type 0} where
  unfoldable pub first_error : List (Bool × E) → Option E
  first_error [] = none
  first_error ((test, e) ∷ guards) = if test then some e else first_error guards

  -- The guards of a branch.
  abbrev pub when : Bool → List (Bool × E) → List (Bool × E)
  when test guards = if test then guards else []

  abbrev pub Passes : Bool × E → Type 0
  Passes g = g.0 ≡ false

  pub first_error-none : (guards : List (Bool × E)) → first_error guards ≡ none → All Passes guards
  unfolding first_error
  first_error-none [] h = tt
  first_error-none ((test, e) ∷ guards) h = (ground arith, first_error-none guards (ground arith))

  pub first_error-append :
      (gs hs : List (Bool × E))
      → first_error (gs ++ hs) ≡ none
      → (first_error gs ≡ none) × (first_error hs ≡ none)
  unfolding first_error
  first_error-append [] hs h = (refl, h)
  first_error-append ((test, e) ∷ gs) hs h = ground (arith, first_error-append gs hs)

  pub first_error_pass : (guards : List (Bool × E)) → All Passes guards → first_error guards ≡ none
  unfolding first_error
  first_error_pass [] a = refl
  first_error_pass ((test, e) ∷ guards) a = ground (arith, first_error_pass guards a.1)
