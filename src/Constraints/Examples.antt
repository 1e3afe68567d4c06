-- ===== src/Constraints/Examples.antt =====
-- A rule with two versions.
use stair_platform.Prelude.{
  ℕ, All, List, ◌↔◌, String, ◌≡◌, refl, ◌≢◌, true, none, some, [], ◌∷◌, lookup, insert, ℤ, pos,
  whole,
}
use stair_platform.Constraints.{
  Constraint, ConstraintSet, versions, activate, resolve, range_contains, add_constraint,
  has_version, new_set,
}
use stair_platform.Constraints.Integrity.{
  Separate, overlapping_ranges, multiple_active, validate_integrity, validate_integrity-Separate,
}
use stair_platform.Constraints.Activation.{find_version, count_active, activate-resolve}

abbrev rule : ℕ → Constraint whole
rule v = record {
  code = "riser";
  category = "step";
  severity = "error";
  range = record {
    min = pos 140;
    max = pos 200;
    has_min = true;
    has_max = true;
    tolerance = pos 1;
  };
  version = pos v;
  active = true;
  message = "out of range";
  fix = "";
  advice = none;
}

abbrev rules : ConstraintSet whole
rules = record { id = "s"; name = "base"; constraints = ("riser", rule 1 ∷ rule 2 ∷ []) ∷ [] }

-- Both versions are added as active ones, and both stay active.
both_active :
    count_active (
      versions "riser" (add_constraint (rule 2) (add_constraint (rule 1) (new_set "s" "base")).0).0)
    ≡ 2
unfolding count_active versions add_constraint new_set has_version lookup insert
both_active = refl

found_second : find_version (pos 2) (versions "riser" rules) ≡ some (rule 2)
unfolding find_version versions lookup
found_second = refl

activate-resolve_example :
    ((activate "riser" (pos 2) rules).1 ≡ none)
    × (count_active (versions "riser" (activate "riser" (pos 2) rules).0) ≡ 1)
    × ((value : ℤ)
        → resolve "riser" value (activate "riser" (pos 2) rules).0
          ≡ (some (record (rule 2) { active = true }), range_contains (rule 2).range value))
    × ((other : String)
        → other ≢ "riser"
        → versions other (activate "riser" (pos 2) rules).0 ≡ versions other rules)
activate-resolve_example = activate-resolve "riser" (pos 2) rules (rule 2) found_second

-- The two versions have one range, and both are active.
violations :
    validate_integrity rules
    ≡ overlapping_ranges "riser" (pos 1) (pos 2) ∷ multiple_active "riser" 2 ∷ []
unfolding validate_integrity count_active
violations = refl

validate_integrity-Separate_example :
    (validate_integrity rules ≡ [])
    ↔ All (λ (e : String × List (Constraint whole)). Separate e.1) rules.constraints
validate_integrity-Separate_example = validate_integrity-Separate rules
