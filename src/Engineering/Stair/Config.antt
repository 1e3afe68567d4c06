-- ===== src/Engineering/Stair/Config.antt =====
-- internal/domain/engineering/stair.go: the configuration and `Validate`.
use stair_platform.Prelude.{
  String, Bool, true, false, not, ◌&&◌, ◌||◌, Option, List, [], ◌∷◌, ◌++◌, if◌then◌else◌, ℤ, pos,
  ltb_ℤ, first_error, when, Float,
}

pub data FlightType : Type 0 where
  flight_unset straight l_shape u_shape spiral : FlightType
  flight_unknown : String → FlightType

pub data RailingSide : Type 0 where
  railing_unset railing_none railing_left railing_right railing_both railing_unknown : RailingSide

pub data TurnDirection : Type 0 where
  turn_unset turn_left turn_right turn_unknown : TurnDirection

pub data TurnKind : Type 0 where
  kind_unset platform winder kind_unknown : TurnKind

pub data SpiralDirection : Type 0 where
  spiral_unset cw ccw spiral_unknown : SpiralDirection

unfoldable pub railing_valid : RailingSide → Bool
railing_valid railing_none = true
railing_valid railing_left = true
railing_valid railing_right = true
railing_valid railing_both = true
railing_valid _ = false

unfoldable pub direction_valid : TurnDirection → Bool
direction_valid turn_left = true
direction_valid turn_right = true
direction_valid _ = false

unfoldable pub kind_valid : TurnKind → Bool
kind_valid kind_unknown = false
kind_valid _ = true

unfoldable pub spiral_valid : SpiralDirection → Bool
spiral_valid cw = true
spiral_valid ccw = true
spiral_valid _ = false

unfoldable pub default_railing : SpiralDirection → RailingSide
default_railing cw = railing_right
default_railing _ = railing_left

-- `x != ""`
abbrev pub railing_set : RailingSide → Bool
railing_set railing_unset = false
railing_set _ = true

abbrev pub direction_set : TurnDirection → Bool
direction_set turn_unset = false
direction_set _ = true

abbrev pub kind_set : TurnKind → Bool
kind_set kind_unset = false
kind_set _ = true

abbrev pub spiral_set : SpiralDirection → Bool
spiral_set spiral_unset = false
spiral_set _ = true

abbrev pub is_unset : FlightType → Bool
is_unset flight_unset = true
is_unset _ = false

abbrev pub is_straight : FlightType → Bool
is_straight straight = true
is_straight _ = false

-- `c.Flight == FlightLShape || c.Flight == FlightUShape`
abbrev pub has_landing : FlightType → Bool
has_landing l_shape = true
has_landing u_shape = true
has_landing _ = false

abbrev pub is_spiral : FlightType → Bool
is_spiral spiral = true
is_spiral _ = false

abbrev pub is_winder : TurnKind → Bool
is_winder winder = true
is_winder _ = false

pub data StairError : Type 0 where
  bad_width bad_height no_flight bad_step_count bad_stringer_thickness : StairError
  bad_step_thickness bad_tread_depth bad_clearance bad_railing_height : StairError
  bad_stringer_length bad_lower_step_count bad_landing_width bad_landing_depth : StairError
  bad_room_width bad_room_length bad_approach_space approach_out_of_range : StairError
  bad_turn_kind few_winders no_well lower_step_range narrow_landing : StairError
  shallow_landing small_outer_radius bad_railing bad_direction : StairError
  bad_spiral_direction : StairError

-- The fields that are no lengths or counts in the guards (`Angle`, `Riser`, `Material`) keep their
-- places.
pub record StairConfiguration (L : Type 0) : Type 0 where
  pub width : L
  pub height : L
  pub length : L
  pub angle : L
  pub flight : FlightType
  pub step_count : ℤ
  pub step_height : L
  pub step_width : L
  pub tread_depth : L
  pub clearance : L
  pub railing_height : L
  pub stringer_length : L
  pub stringer_thickness : L
  pub step_thickness : L
  pub riser : Bool
  pub lower_step_count : ℤ
  pub landing_width : L
  pub landing_depth : L
  pub room_width : L
  pub room_length : L
  pub approach_space : L
  pub turn_kind : TurnKind
  pub winder_count : ℤ
  pub outer_radius : L
  pub material : String
  pub railing : RailingSide
  pub railing_lower : RailingSide
  pub railing_landing : RailingSide
  pub railing_upper : RailingSide
  pub direction : TurnDirection
  pub spiral_direction : SpiralDirection

module _ (F : Float) where
  open F use {Carrier, of_int, lt, eq}

  -- A comparison with `<=` on floats, which is false when one side is not a number.
  unfoldable pub le : Carrier → Carrier → Bool
  le a b = lt a b || eq a b

  abbrev pub negative : Carrier → Bool
  negative x = lt x (of_int (pos 0))

  -- `a := c.ApproachSpace; if a == 0 { a = 1000 }`
  unfoldable pub approach : Carrier → Carrier
  approach a = if eq a (of_int (pos 0)) then of_int (pos 1000) else a

  abbrev pub Config : Type 0
  Config = StairConfiguration Carrier

  -- The guards up to the ranges that depend on the flight.
  unfoldable pub size_guards : Config → List (Bool × StairError)
  unfolding le
  size_guards c =
      (le c.width (of_int (pos 0)), bad_width)
      ∷ (le c.height (of_int (pos 0)), bad_height)
      ∷ (is_unset c.flight, no_flight)
      ∷ (ltb_ℤ c.step_count (pos 1), bad_step_count)
      ∷ (negative c.stringer_thickness, bad_stringer_thickness)
      ∷ (negative c.step_thickness, bad_step_thickness)
      ∷ (negative c.tread_depth, bad_tread_depth)
      ∷ (negative c.clearance, bad_clearance)
      ∷ (negative c.railing_height, bad_railing_height)
      ∷ (negative c.stringer_length, bad_stringer_length)
      ∷ (ltb_ℤ c.lower_step_count (pos 0), bad_lower_step_count)
      ∷ (negative c.landing_width, bad_landing_width)
      ∷ (negative c.landing_depth, bad_landing_depth)
      ∷ (negative c.room_width, bad_room_width)
      ∷ (negative c.room_length, bad_room_length)
      ∷ (negative c.approach_space, bad_approach_space)
      ∷ []

  -- The space before a straight flight, 1000 to 1200 mm.
  unfoldable pub approach_guards : Config → List (Bool × StairError)
  unfolding approach
  approach_guards c = when (is_straight c.flight) (
      (
        lt (approach c.approach_space) (of_int (pos 1000))
            || lt (of_int (pos 1200)) (approach c.approach_space),
        approach_out_of_range,
      )
      ∷ [])

  -- `c.LowerStepCount < 1 || c.LowerStepCount >= c.StepCount`
  unfoldable pub lower_out_of_range : Config → Bool
  lower_out_of_range c =
      ltb_ℤ c.lower_step_count (pos 1) || not (ltb_ℤ c.lower_step_count c.step_count)

  unfoldable pub winder_guards : Config → List (Bool × StairError)
  unfolding le lower_out_of_range
  winder_guards c =
      (ltb_ℤ c.winder_count (pos 3), few_winders)
      ∷ (le c.landing_width (of_int (pos 0)), no_well)
      ∷ (lower_out_of_range c, lower_step_range)
      ∷ []

  unfoldable pub platform_guards : Config → List (Bool × StairError)
  unfolding lower_out_of_range
  platform_guards c =
      (lt c.landing_width c.width, narrow_landing)
      ∷ (lt (of_int (pos 0)) c.landing_depth && lt c.landing_depth c.width, shallow_landing)
      ∷ (lower_out_of_range c, lower_step_range)
      ∷ []

  unfoldable pub landing_guards : Config → List (Bool × StairError)
  unfolding winder_guards platform_guards
  landing_guards c =
      when (has_landing c.flight && ltb_ℤ (pos 1) c.step_count)
        (if is_winder c.turn_kind then winder_guards c else platform_guards c)

  unfoldable pub vocabulary_guards : Config → List (Bool × StairError)
  unfolding le railing_valid direction_valid spiral_valid
  vocabulary_guards c =
      when (is_spiral c.flight) ((le c.outer_radius c.width, small_outer_radius) ∷ [])
      ++ ((
        railing_set c.railing && not (railing_valid c.railing)
            || railing_set c.railing_lower && not (railing_valid c.railing_lower)
            || railing_set c.railing_landing && not (railing_valid c.railing_landing)
            || railing_set c.railing_upper && not (railing_valid c.railing_upper),
        bad_railing,
      )
          ∷ (direction_set c.direction && not (direction_valid c.direction), bad_direction)
          ∷ (
            spiral_set c.spiral_direction && not (spiral_valid c.spiral_direction),
            bad_spiral_direction,
          )
          ∷ [])

  unfoldable pub turn_guards : Config → List (Bool × StairError)
  unfolding kind_valid
  turn_guards c = (kind_set c.turn_kind && not (kind_valid c.turn_kind), bad_turn_kind) ∷ []

  -- `Validate`: its returns in the order of the source.
  unfoldable pub flight_guards : Config → List (Bool × StairError)
  flight_guards c = turn_guards c ++ (landing_guards c ++ vocabulary_guards c)

  unfoldable pub validate : Config → Option StairError
  validate c = first_error (size_guards c ++ (approach_guards c ++ flight_guards c))

  -- `NewStairConfiguration`: the configuration is returned beside the error.
  unfoldable pub new_stair_configuration :
      Carrier → Carrier → FlightType → Config × Option StairError
  new_stair_configuration width height flight =
      let zero_length = of_int (pos 0) in
      let cfg : Config = record {
        width = width;
        height = height;
        length = zero_length;
        angle = zero_length;
        flight = flight;
        step_count = pos 1;
        step_height = height;
        step_width = zero_length;
        tread_depth = zero_length;
        clearance = zero_length;
        railing_height = zero_length;
        stringer_length = zero_length;
        stringer_thickness = zero_length;
        step_thickness = zero_length;
        riser = true;
        lower_step_count = pos 0;
        landing_width = zero_length;
        landing_depth = zero_length;
        room_width = zero_length;
        room_length = zero_length;
        approach_space = zero_length;
        turn_kind = kind_unset;
        winder_count = pos 0;
        outer_radius = zero_length;
        material = "";
        railing = railing_unset;
        railing_lower = railing_unset;
        railing_landing = railing_unset;
        railing_upper = railing_unset;
        direction = turn_unset;
        spiral_direction = spiral_unset;
      } in
      (cfg, validate cfg)
