-- ===== src/Engineering/Stair/Examples.antt =====
-- Staircases at concrete sizes, with integers for the lengths.
use stair_platform.Prelude.{◌≡◌, refl, true, none, ℤ, pos, first_error, whole}
use stair_platform.Engineering.Stair.Config.{
  size_guards, approach_guards, flight_guards, turn_guards, landing_guards, vocabulary_guards,
  StairConfiguration, straight, u_shape, spiral, platform, turn_unset, railing_unset, spiral_unset,
  validate, FlightType,
}

abbrev house_stair : FlightType → StairConfiguration ℤ
house_stair flight = record {
  width = pos 900;
  height = pos 2800;
  length = pos 0;
  angle = pos 0;
  flight = flight;
  step_count = pos 16;
  step_height = pos 175;
  step_width = pos 0;
  tread_depth = pos 270;
  clearance = pos 2000;
  railing_height = pos 900;
  stringer_length = pos 0;
  stringer_thickness = pos 50;
  step_thickness = pos 40;
  riser = true;
  lower_step_count = pos 8;
  landing_width = pos 1000;
  landing_depth = pos 950;
  room_width = pos 0;
  room_length = pos 0;
  approach_space = pos 1100;
  turn_kind = platform;
  winder_count = pos 0;
  outer_radius = pos 1200;
  material = "oak";
  railing = railing_unset;
  railing_lower = railing_unset;
  railing_landing = railing_unset;
  railing_upper = railing_unset;
  direction = turn_unset;
  spiral_direction = spiral_unset;
}

valid_u_shape : validate whole (house_stair u_shape) ≡ none
unfolding validate size_guards approach_guards flight_guards turn_guards landing_guards
    vocabulary_guards first_error
valid_u_shape = refl

valid_straight : validate whole (house_stair straight) ≡ none
unfolding validate size_guards approach_guards flight_guards turn_guards landing_guards
    vocabulary_guards first_error
valid_straight = refl

valid_spiral : validate whole (house_stair spiral) ≡ none
unfolding validate size_guards approach_guards flight_guards turn_guards landing_guards
    vocabulary_guards first_error
valid_spiral = refl
