-- ===== src/Engineering/Examples.antt =====
-- Engineering objects, revisions, parameters and staircases at concrete values.
use stair_platform.Prelude.{ℕ, String, ◌≡◌, refl, none, some, List, [], ◌∷◌}
use stair_platform.Engineering.Revision.{
  Revision, draft as revision_draft, released as revision_released, release, release_loop, child,
}
use stair_platform.Engineering.Revision.Lifecycle.{release_total}
use stair_platform.Engineering.Parameter.{recalculate, Parameter, ParameterState, formula}
use stair_platform.Engineering.Parameter.Lifecycle.{
  Op as ParameterOp, op_calculate, op_archive, op_recalculate, run as run_parameter, step,
}
use stair_platform.Engineering.Object.{
  EngineeringObject, EngineeringState, calculated, commit, transition,
}
use stair_platform.Engineering.Object.History.{
  Op, op_commit, op_transition, op_release, run, step as object_step, replaced, notes, count_notes,
  Keeps, run-Keeps,
}

abbrev first_revision : Revision
first_revision = record {
  id = "rev-1";
  parent = none;
  timestamp = 7;
  author = "anna";
  reason = "start";
  checksum = "stair";
  state = revision_draft;
}

release_total_example :
    release first_revision ≡ some (record first_revision { state = revision_released }, none)
release_total_example = release_total first_revision

abbrev width : Parameter ℕ
width = record {
  id = "width";
  name = "Width";
  unit = "mm";
  value = some 900;
  source = formula;
  state = ParameterState.created;
  formula = "";
  depends_on = [];
}

abbrev changes : List (ParameterOp ℕ)
changes = op_calculate (some 950) ∷ op_archive ∷ op_recalculate (some 1000) ∷ []

-- `Recalculate` does not look at the state: the archived parameter changes.
recalculate_archived : (run_parameter changes width).value ≡ some 1000
unfolding run_parameter step recalculate
recalculate_archived = refl

abbrev stair : EngineeringObject ℕ
stair = record {
  id = "stair-1";
  kind = "stair";
  state = EngineeringState.approved;
  owner = "anna";
  current = record first_revision { state = revision_released };
  older = [];
  params = [];
  metadata = [];
  events = [];
  correlation_id = "";
}

abbrev checksum_of : String → String
checksum_of s = s

abbrev draft_stair : EngineeringObject ℕ
draft_stair = record stair { state = EngineeringState.created; current = first_revision }

-- Two commits, the second of a released revision, which is refused, and a transition.
abbrev calls : List (Op ℕ)
calls =
    op_commit "rev-2" 9 "anna" "wider"
    ∷ op_release
    ∷ op_commit "rev-3" 10 "anna" "higher"
    ∷ op_transition calculated
    ∷ []

one_replaced : replaced checksum_of calls draft_stair ≡ first_revision ∷ []
unfolding replaced notes commit transition release child object_step release_loop
one_replaced = refl

two_noted : count_notes checksum_of calls draft_stair ≡ 2
unfolding count_notes notes commit transition release child object_step release_loop
two_noted = refl

run-Keeps_example : Keeps checksum_of calls draft_stair (run checksum_of calls draft_stair)
run-Keeps_example = run-Keeps checksum_of calls draft_stair
