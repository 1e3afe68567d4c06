-- ===== src/Prelude/Floats.antt =====
-- Go's float64, as far as the platform uses it: a carrier with the operations of the language. No
-- law is assumed here; a theorem that needs one has it as a hypothesis, such as IsOrdered.
use mathlib.Core.Path.{◌≡◌}
use mathlib.Core.Bool.{Bool, true, false, ◌||◌}
use stair_platform.Prelude.Int.{ℤ, pos, ◌+ℤ◌, ◌-ℤ◌, ◌*ℤ◌, ltb_ℤ, eq_ℤ}

pub record Float : Type 1 where
  pub Carrier : Type 0
  pub of_int : ℤ → Carrier
  pub lt : Carrier → Carrier → Bool
  pub eq : Carrier → Carrier → Bool
  pub is_nan : Carrier → Bool
  pub is_inf : Carrier → Bool
  pub minus : Carrier → Carrier → Carrier
  pub plus : Carrier → Carrier → Carrier
  pub times : Carrier → Carrier → Carrier
  pub over : Carrier → Carrier → Carrier
  pub half : Carrier
  pub floor : Carrier → Carrier
  pub to_int64 : Carrier → ℤ

-- Integers in the place of floats, for examples.
abbrev pub whole : Float
whole = record {
  Carrier = ℤ;
  of_int = λ n. n;
  lt = ltb_ℤ;
  eq = eq_ℤ;
  is_nan = λ _. false;
  is_inf = λ _. false;
  plus = λ a b. a +ℤ b;
  minus = λ a b. a -ℤ b;
  times = λ a b. a *ℤ b;
  over = λ a _. a;
  half = pos 0;
  floor = λ a. a;
  to_int64 = λ a. a;
}

module _ (f : Float) where
  -- `0`
  abbrev pub origin : f.Carrier
  origin = f.of_int (pos 0)

  -- `a <= b`
  abbrev pub le : f.Carrier → f.Carrier → Bool
  le a b = f.lt a b || f.eq a b

  abbrev pub Le : f.Carrier → f.Carrier → Type 0
  Le a b = le a b ≡ true

  -- The order of float64 on numbers that are not negative: sums are rounded, and rounding keeps the
  -- order.
  pub record IsOrdered : Type 0 where
    pub origin_le : Le origin origin
    pub le_refl : (a : f.Carrier) → Le origin a → Le a a
    pub le_trans : (a b c : f.Carrier) → Le a b → Le b c → Le a c
    pub le_of_not_lt : (a b : f.Carrier) → Le origin a → Le origin b → f.lt a b ≡ false → Le b a
    pub nonneg : (a : f.Carrier) → f.is_nan a ≡ false → f.lt a origin ≡ false → Le origin a
    pub not_lt_of_le : (a b : f.Carrier) → Le a b → f.lt b a ≡ false
    pub plus_mono :
        (a b c d : f.Carrier)
        → Le origin a
        → Le origin b
        → Le a c
        → Le b d
        → Le (f.plus a b) (f.plus c d)
    pub le_plus : (a b : f.Carrier) → Le origin a → Le origin b → Le a (f.plus a b)
    pub origin_plus : (a : f.Carrier) → Le origin a → Le (f.plus origin a) a
