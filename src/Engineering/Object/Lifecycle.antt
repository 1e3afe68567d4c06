-- ===== src/Engineering/Object/Lifecycle.antt =====
-- The states of an engineering object.
use stair_platform.Prelude.{ℕ, ◌+◌, String, ◌≡◌, ◌≢◌, ◌↔◌, none, some, [], ◌∷◌, ◌++◌, arith}
use stair_platform.Engineering.Revision.{released as revision_released, released_immutable, child}
use stair_platform.Engineering.Object.{
  EngineeringState, created, draft, editing, calculated, validated, approved, released, archived,
  EngineeringObject, transition, commit, history, event, state_name, revision_error,
}

-- The place of a state in the life of an object.
abbrev pub stage : EngineeringState → ℕ
stage created = 0
stage draft = 1
stage editing = 2
stage calculated = 3
stage validated = 4
stage approved = 5
stage released = 6
stage archived = 7

-- `Transition` accepts exactly the stage that follows the object's own. Then the state is the
-- target, one event that names it and the current revision is appended, and the history is as it
-- was; otherwise nothing changes.
pub transition_lem :
    {V : Type 0} (target : EngineeringState) (o : EngineeringObject V)
    → let (o', e) = transition target o in
      ((e ≡ none) ↔ (stage target ≡ stage o.state + 1))
      × (e ≡ none
          → (o'.state ≡ target)
            × (o'.events ≡ o.events ++ event "object.state_changed" (state_name target) o ∷ [])
            × (history o' ≡ history o))
      × (e ≢ none → o' ≡ o)
unfolding transition history event
transition_lem target o =
    ((λ h. ground arith, λ h. ground arith), λ h. ground arith, λ h. ground arith)

-- `Commit` on an object whose current revision is released fails and changes nothing.
pub commit_released :
    {V : Type 0} (checksum : String → String) (rev_id : String) (now : ℕ) (author reason : String)
    (o : EngineeringObject V)
    → o.current.state ≡ revision_released
    → commit checksum rev_id now author reason o ≡ (o, some (revision_error released_immutable))
unfolding commit child
commit_released checksum rev_id now author reason o h = ground arith
