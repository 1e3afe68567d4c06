-- ===== src/Validation/Examples.antt =====
-- A staircase under the standard profile, with whole numbers in the place of floats.
use stair_platform.Prelude.{
  String, ◌≡◌, ◌↔◌, refl, true, not, ◌&&◌, [], ◌∷◌, ℤ, pos, ◌*ℤ◌, ◌+ℤ◌, ◌-ℤ◌, whole, sort_by,
  pos_part, ◌/◌, Float, map, str_lt, lookup, insert,
}
use stair_platform.Engineering.Stair.Config.{
  StairConfiguration, straight, platform, turn_unset, railing_unset, spiral_unset,
}
use stair_platform.Constraints.{
  ConstraintSet, range_contains, add_constraint, has_version, new_set, resolve,
}
use stair_platform.Constraints.Standard.{standard_profile, between}
use stair_platform.Constraints.Integrity.{validate_integrity}
use stair_platform.Validation.{Printing, degrees, validate, Issue}
use stair_platform.Validation.Admitted.{Admits, validate-Admits}
use stair_platform.Validation.Standard.{validate-standard_profile}

abbrev numbers : Float
numbers = record whole { over = λ a b. pos (pos_part a / pos_part b) }

-- A half turn is 180 units.
abbrev printing : Printing numbers
printing = record {
  itoa = λ n. "1";
  fixed0 = λ a. "0";
  fixed1 = λ a. "0.0";
  replace = λ pairs tpl. tpl;
  pi = pos 180;
}

abbrev house_stair : ℤ → StairConfiguration ℤ
house_stair angle = record {
  width = pos 900;
  height = pos 2800;
  length = pos 0;
  angle = angle;
  flight = straight;
  step_count = pos 16;
  step_height = pos 175;
  step_width = pos 0;
  tread_depth = pos 270;
  clearance = pos 2000;
  railing_height = pos 900;
  stringer_length = pos 0;
  stringer_thickness = pos 50;
  step_thickness = pos 40;
  riser = true;
  lower_step_count = pos 8;
  landing_width = pos 1000;
  landing_depth = pos 950;
  room_width = pos 0;
  room_length = pos 0;
  approach_space = pos 1100;
  turn_kind = platform;
  winder_count = pos 0;
  outer_radius = pos 1200;
  material = "oak";
  railing = railing_unset;
  railing_lower = railing_unset;
  railing_landing = railing_unset;
  railing_upper = railing_unset;
  direction = turn_unset;
  spiral_direction = spiral_unset;
}

abbrev base : ConstraintSet numbers
base = standard_profile numbers "base"

house_stair-valid : (validate printing (house_stair (pos 33)) base).valid ≡ true
unfolding validate standard_profile add_constraint has_version new_set lookup insert str_lt ◌*ℤ◌
    ◌+ℤ◌ ◌-ℤ◌ resolve sort_by
house_stair-valid = refl

-- A stair that is too steep has one issue, of the angle.
too_steep :
    map {B = String × String}
      (λ (i : Issue numbers). (i.id, i.code))
      (validate printing (house_stair (pos 50)) base).issues
    ≡ ("ISSUE-1", "GEO-ANGLE") ∷ []
unfolding validate standard_profile add_constraint has_version new_set lookup insert str_lt ◌*ℤ◌
    ◌+ℤ◌ ◌-ℤ◌ resolve sort_by
too_steep = refl

validate-Admits_example :
    ((validate printing (house_stair (pos 33)) base).valid
      ≡ not (validate printing (house_stair (pos 33)) base).blocking)
    × (((validate printing (house_stair (pos 33)) base).valid ≡ true) ↔ (
        Admits base "GEO-STEP-HEIGHT" (pos 175)
        × Admits base "GEO-TREAD-DEPTH" (pos 270)
        × Admits base "GEO-ANGLE" (pos 33)
        × Admits base "GEO-CLEARANCE" (pos 2000)
        × Admits base "GEO-STRINGER-THICKNESS" (pos 50)
        × Admits base "SAF-RAILING-HEIGHT" (pos 900)))
unfolding ◌*ℤ◌ ◌+ℤ◌
validate-Admits_example = validate-Admits printing (house_stair (pos 33)) base

validate-standard_profile_example :
    (validate_integrity base ≡ [])
    × ((validate printing (house_stair (pos 33)) base).valid ≡ (
        range_contains (between numbers (pos 150) (pos 200) (pos 10)) (pos 175)
        && range_contains (between numbers (pos 260) (pos 320) (pos 10)) (pos 270)
        && range_contains
            (between numbers (pos 30) (pos 45) (pos 100))
            (degrees printing (pos 33))))
validate-standard_profile_example =
    validate-standard_profile numbers printing "base" (house_stair (pos 33))
