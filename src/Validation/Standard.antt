-- ===== src/Validation/Standard.antt =====
-- Validation by the standard profile of internal/engine/constraint/standard.go.
use stair_platform.Prelude.{
  ◌≡◌, refl, ◌∙◌, ap, String, false, not, ◌&&◌, ◌||◌, some, [], lookup, insert, pos, arith, Float,
}
use stair_platform.Engineering.Stair.Config.{StairConfiguration}
use stair_platform.Constraints.{
  active, add_constraint, versions, has_version, new_set, range_contains,
}
use stair_platform.Constraints.Activation.{count_active}
use stair_platform.Constraints.Standard.{
  standard_profile, between, step_height_rule, tread_depth_rule, angle_rule, clearance_rule,
  stringer_rule, railing_rule,
}
use stair_platform.Constraints.Integrity.{validate_integrity}
use stair_platform.Validation.{Printing, bindings, degrees, validate}
use stair_platform.Validation.Reports.{any_broken, rule_broken, valid_lem, blocking_lem}

module _ (f : Float) where
  active-step_height :
      (name : String)
      → active "GEO-STEP-HEIGHT" (standard_profile f name) ≡ some (step_height_rule f)
  unfolding active standard_profile add_constraint versions has_version new_set lookup insert
  active-step_height name = refl

  active-tread_depth :
      (name : String)
      → active "GEO-TREAD-DEPTH" (standard_profile f name) ≡ some (tread_depth_rule f)
  unfolding active standard_profile add_constraint versions has_version new_set lookup insert
  active-tread_depth name = refl

  active-angle :
      (name : String) → active "GEO-ANGLE" (standard_profile f name) ≡ some (angle_rule f)
  unfolding active standard_profile add_constraint versions has_version new_set lookup insert
  active-angle name = refl

  active-clearance :
      (name : String) → active "GEO-CLEARANCE" (standard_profile f name) ≡ some (clearance_rule f)
  unfolding active standard_profile add_constraint versions has_version new_set lookup insert
  active-clearance name = refl

  active-stringer :
      (name : String)
      → active "GEO-STRINGER-THICKNESS" (standard_profile f name) ≡ some (stringer_rule f)
  unfolding active standard_profile add_constraint versions has_version new_set lookup insert
  active-stringer name = refl

  active-railing :
      (name : String)
      → active "SAF-RAILING-HEIGHT" (standard_profile f name) ≡ some (railing_rule f)
  unfolding active standard_profile add_constraint versions has_version new_set lookup insert
  active-railing name = refl

  integral : (name : String) → validate_integrity (standard_profile f name) ≡ []
  unfolding validate_integrity standard_profile add_constraint versions has_version new_set lookup
      insert count_active
  integral name = refl

  module _ (go : Printing f) where
    broken_lem :
        (name : String) (cfg : StairConfiguration f.Carrier)
        → any_broken go "error" cfg (standard_profile f name) (bindings go) ≡ (
            not (range_contains (step_height_rule f).range cfg.step_height)
            || (not (range_contains (tread_depth_rule f).range cfg.tread_depth)
                || (not (range_contains (angle_rule f).range (degrees go cfg.angle)) || false)))
    unfolding any_broken bindings rule_broken
    broken_lem name cfg =
        rw
          (
            active-step_height name,
            active-tread_depth name,
            active-angle name,
            active-clearance name,
            active-stringer name,
            active-railing name,
          )
          refl

    -- The standard profile, of whatever name, passes `ValidateIntegrity`, and a staircase is valid
    -- under it exactly if its step height is in 150 to 200, its tread depth in 260 to 320 (with a
    -- tolerance of 0.1) and its angle in degrees in 30 to 45 (with 0.01), whatever its clearance, its
    -- stringers and its railing are.
    pub validate-standard_profile :
        (name : String) (cfg : StairConfiguration f.Carrier)
        → (validate_integrity (standard_profile f name) ≡ [])
          × ((validate go cfg (standard_profile f name)).valid ≡ (
              range_contains (between f (pos 150) (pos 200) (pos 10)) cfg.step_height
              && range_contains (between f (pos 260) (pos 320) (pos 10)) cfg.tread_depth
              && range_contains (between f (pos 30) (pos 45) (pos 100)) (degrees go cfg.angle)))
    validate-standard_profile name cfg = (
      integral name,
      valid_lem go cfg (standard_profile f name)
          ∙ ap not (blocking_lem go cfg (standard_profile f name) ∙ broken_lem name cfg)
          ∙ ground arith,
    )
