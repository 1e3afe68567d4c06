-- ===== src/Constraints.antt =====
-- internal/engine/constraint/constraint.go: the set of constraints with their versions. A pointer to
-- a version of a rule is its position in the list of the rule's code.
pub mod Activation
pub mod Integrity
pub mod Standard
mod Examples
use stair_platform.Prelude.{
  String, Bool, true, false, not, ◌&&◌, Option, none, some, List, [], ◌∷◌, ◌++◌, str_eq, ◌==◌,
  if◌then◌else◌, length, lookup, insert, ℤ, pos, ltb_ℤ, eq_ℤ, Float,
}

pub record Range (f : Float) : Type 0 where
  pub min : f.Carrier
  pub max : f.Carrier
  pub has_min : Bool
  pub has_max : Bool
  pub tolerance : f.Carrier

pub record Advice : Type 0 where
  pub param : String
  pub guide : String
  pub suggest : Bool

pub record Constraint (f : Float) : Type 0 where
  pub code : String
  pub category : String
  pub severity : String
  pub range : Range f
  pub version : ℤ
  pub active : Bool
  pub message : String
  pub fix : String
  pub advice : Option Advice

pub record ConstraintSet (f : Float) : Type 0 where
  pub id : String
  pub name : String
  pub constraints : List (String × List (Constraint f))

pub data ConstraintError : Type 0 where
  code_required version_too_small duplicate_version unknown_code unknown_version : ConstraintError

module _ {f : Float} where
  unfoldable pub range_contains : Range f → f.Carrier → Bool
  range_contains r value =
      if r.has_min && f.lt (f.plus value r.tolerance) r.min
      then false
      else if r.has_max && f.lt r.max (f.minus value r.tolerance)
      then false
      else true

  unfoldable pub new_set : String → String → ConstraintSet f
  new_set id name = record { id = id; name = name; constraints = [] }

  -- `s.Constraints[code]`, where a missing entry is nil.
  unfoldable pub versions : String → ConstraintSet f → List (Constraint f)
  versions code s = elim (lookup code s.constraints) [ none ↦ [] | some cs ↦ cs ]

  unfoldable pub has_version : ℤ → List (Constraint f) → Bool
  has_version v [] = false
  has_version v (c ∷ cs) = let rest = has_version v cs in if eq_ℤ c.version v then true else rest

  unfoldable pub add_constraint :
      Constraint f → ConstraintSet f → ConstraintSet f × Option ConstraintError
  unfolding versions has_version
  add_constraint c s =
      if str_eq c.code ""
      then (s, some code_required)
      else if ltb_ℤ c.version (pos 1)
      then (s, some version_too_small)
      else if has_version c.version (versions c.code s)
      then (s, some duplicate_version)
      else (
        record s { constraints = insert c.code (versions c.code s ++ c ∷ []) s.constraints },
        none,
      )

  unfoldable pub deactivate : List (Constraint f) → List (Constraint f)
  deactivate [] = []
  deactivate (c ∷ cs) = record c { active = false } ∷ deactivate cs

  -- The first of the version is the target; `c.Active = c == target`.
  unfoldable pub set_active : ℤ → List (Constraint f) → List (Constraint f)
  unfolding deactivate
  set_active v [] = []
  set_active v (c ∷ cs) =
      let rest = set_active v cs in
      if eq_ℤ c.version v
      then record c { active = true } ∷ deactivate cs
      else record c { active = false } ∷ rest

  unfoldable pub activate : String → ℤ → ConstraintSet f → ConstraintSet f × Option ConstraintError
  unfolding versions has_version set_active
  activate code version s =
      if length (versions code s) == 0
      then (s, some unknown_code)
      else if not (has_version version (versions code s))
      then (s, some unknown_version)
      else (
        record s { constraints = insert code (set_active version (versions code s)) s.constraints },
        none,
      )

  unfoldable pub first_active : List (Constraint f) → Option (Constraint f)
  first_active [] = none
  first_active (c ∷ cs) = let rest = first_active cs in if c.active then some c else rest

  unfoldable pub active : String → ConstraintSet f → Option (Constraint f)
  unfolding versions first_active
  active code s = first_active (versions code s)

  -- The active version, if any, and whether the value is in its range.
  unfoldable pub resolve : String → f.Carrier → ConstraintSet f → Option (Constraint f) × Bool
  unfolding active range_contains
  resolve code value s = elim (active code s) [
    | none ↦ (none, true)
    | some c ↦ (some c, range_contains c.range value)
  ]
