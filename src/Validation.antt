-- ===== src/Validation.antt =====
-- internal/engine/validation: the validation of a staircase by the active rules. The numbers of
-- strconv, the formats of fmt, the replacer of strings and the constant math.Pi are arguments. The
-- suggestions and variations of an issue, which other engines add, are left out.
pub mod Reports
pub mod Admitted
pub mod Standard
mod Examples
use Prim.Native.String.{◌++◌ as concat}
use stair_platform.Prelude.{
  ℕ, suc, String, Bool, true, false, not, Option, none, some, List, [], ◌∷◌, str_eq, if◌then◌else◌,
  pos, str_lt, Float, sort_by, map,
}
use stair_platform.Engineering.Stair.Config.{StairConfiguration}
use stair_platform.Constraints.{Constraint, ConstraintSet, Advice, resolve}

pub record Issue (f : Float) : Type 0 where
  pub id : String
  pub code : String
  pub severity : String
  pub element : String
  pub message : String
  pub value : f.Carrier
  pub min : f.Carrier
  pub max : f.Carrier
  pub has_min : Bool
  pub has_max : Bool
  pub fix : String
  pub param : String
  pub guide : String

pub record Result (f : Float) : Type 0 where
  pub issues : List (Issue f)
  pub valid : Bool
  pub blocking : Bool

pub record Binding (f : Float) : Type 0 where
  pub code : String
  pub element : String
  pub value : StairConfiguration f.Carrier → f.Carrier

-- What the packages of Go give: `strconv.Itoa`, `%.0f`, `%.1f`, `Replacer.Replace` and `math.Pi`.
pub record Printing (f : Float) : Type 0 where
  pub itoa : ℕ → String
  pub fixed0 : f.Carrier → String
  pub fixed1 : f.Carrier → String
  pub replace : List (String × String) → String → String
  pub pi : f.Carrier

module _ {f : Float} where
  unfoldable pub has_severity : String → List (Issue f) → Bool
  has_severity severity [] = false
  has_severity severity (i ∷ is) =
      let rest = has_severity severity is in if str_eq i.severity severity then true else rest

  -- The order of the sort.
  abbrev pub code_before : Issue f → Issue f → Bool
  code_before i j = str_lt i.code j.code

  module _ (go : Printing f) where
    -- `Angle.Degrees`
    unfoldable pub degrees : f.Carrier → f.Carrier
    degrees a = f.over (f.times a (f.of_int (pos 180))) go.pi

    unfoldable pub bindings : List (Binding f)
    unfolding degrees
    bindings =
        record { code = "GEO-STEP-HEIGHT"; element = "step_height"; value = λ c. c.step_height }
        ∷ record { code = "GEO-TREAD-DEPTH"; element = "tread_depth"; value = λ c. c.tread_depth }
        ∷ record { code = "GEO-ANGLE"; element = "angle"; value = λ c. degrees c.angle }
        ∷ record { code = "GEO-CLEARANCE"; element = "clearance"; value = λ c. c.clearance }
        ∷ record {
          code = "GEO-STRINGER-THICKNESS";
          element = "stringer_thickness";
          value = λ c. c.stringer_thickness;
        }
        ∷ record {
          code = "SAF-RAILING-HEIGHT";
          element = "railing_height";
          value = λ c. c.railing_height;
        }
        ∷ []

    unfoldable pub render_guide : String → Issue f → f.Carrier → String
    render_guide tpl it height_mm =
        go.replace
          (("{value}", go.fixed0 it.value)
            ∷ ("{angle}", go.fixed1 it.value)
            ∷ ("{min}", go.fixed0 it.min)
            ∷ ("{max}", go.fixed0 it.max)
            ∷ ("{height}", go.fixed0 height_mm)
            ∷ [])
          tpl

    -- The issue before the advice of the rule.
    abbrev pub plain_issue : Binding f → StairConfiguration f.Carrier → Constraint f → Issue f
    plain_issue b cfg rule = record {
      id = "";
      code = rule.code;
      severity = rule.severity;
      element = b.element;
      message = rule.message;
      value = b.value cfg;
      min = rule.range.min;
      max = rule.range.max;
      has_min = rule.range.has_min;
      has_max = rule.range.has_max;
      fix = rule.fix;
      param = "";
      guide = "";
    }

    unfoldable pub advise : Option Advice → f.Carrier → Issue f → Issue f
    unfolding render_guide
    advise none height_mm issue = issue
    advise (some advice) height_mm issue = record issue {
      param = advice.param;
      guide = render_guide advice.guide (record issue { param = advice.param }) height_mm;
    }

    abbrev pub issue_of : Binding f → StairConfiguration f.Carrier → Constraint f → Issue f
    issue_of b cfg rule = advise rule.advice cfg.height (plain_issue b cfg rule)

    -- What `Resolve` returns is an issue, if the value is out of range. Without an active rule it says
    -- that the value is in range.
    unfoldable pub add_issue :
        Binding f
        → StairConfiguration f.Carrier
        → Option (Constraint f) × Bool
        → List (Issue f)
        → List (Issue f)
    unfolding advise
    add_issue b cfg (none, ok) rest = rest
    add_issue b cfg (some rule, ok) rest = if ok then rest else issue_of b cfg rule ∷ rest

    -- The loop over the bindings.
    unfoldable pub issues_of :
        List (Binding f) → StairConfiguration f.Carrier → ConstraintSet f → List (Issue f)
    unfolding add_issue
    issues_of [] cfg set = []
    issues_of (b ∷ bs) cfg set =
        add_issue b cfg (resolve b.code (b.value cfg) set) (issues_of bs cfg set)

    -- The ids are ISSUE-1, ISSUE-2 and so on.
    unfoldable pub numbered : ℕ → List (Issue f) → List (Issue f)
    numbered n [] = []
    numbered n (i ∷ is) = record i { id = concat "ISSUE-" (go.itoa n) } ∷ numbered (suc n) is

    -- The codes of the issues differ where the rules stand under their own codes, so any sort of
    -- them is a stable one.
    unfoldable pub validate : StairConfiguration f.Carrier → ConstraintSet f → Result f
    unfolding numbered issues_of bindings has_severity
    validate cfg set =
        let issues = numbered 1 (sort_by code_before (issues_of bindings cfg set)) in
        record {
          issues = issues;
          valid = not (has_severity "error" issues);
          blocking = has_severity "error" issues;
        }
