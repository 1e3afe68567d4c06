-- ===== src/Engineering/Revision.antt =====
-- internal/domain/engineering/revision.go: the revisions of an engineering object. A pointer to a
-- revision is its position in the history of its object. The clock, the random part of an id and
-- SHA-256 enter as the arguments `now`, `id` and `checksum`.
pub mod Lifecycle
use stair_platform.Prelude.{
  ℕ, zero, suc, String, Bool, true, false, Option, none, some, str_eq, if◌then◌else◌,
}

pub data RevisionState : Type 0 where
  draft working calculated validated approved released archived : RevisionState

pub data RevisionError : Type 0 where
  author_required reason_required released_immutable cannot_advance : RevisionError

pub record Revision : Type 0 where
  pub id : String
  pub parent : Option ℕ
  pub timestamp : ℕ
  pub author : String
  pub reason : String
  pub checksum : String
  pub state : RevisionState

pub data Result (A : Type 0) : Type 0 where
  ok : A → Result A
  fail : RevisionError → Result A

unfoldable pub new_revision : String → ℕ → String → String → String → Result Revision
new_revision id now author reason checksum =
    if str_eq author ""
    then fail author_required
    else if str_eq reason ""
    then fail reason_required
    else ok (record {
      id = id;
      parent = none;
      timestamp = now;
      author = author;
      reason = reason;
      checksum = checksum;
      state = draft;
    })

abbrev pub is_released : RevisionState → Bool
is_released released = true
is_released _ = false

-- `at` is the receiver's own position, which the child records as its parent.
unfoldable pub child : Revision → ℕ → String → ℕ → String → String → String → Result Revision
unfolding new_revision
child r at id now author reason checksum =
    if is_released r.state
    then fail released_immutable
    else elim (new_revision id now author reason checksum) [
      | fail e ↦ fail e
      | ok c ↦ ok (record c { parent = some at })
    ]

-- The map `next` of `Advance`.
abbrev pub next_state : RevisionState → Option RevisionState
next_state draft = some working
next_state working = some calculated
next_state calculated = some validated
next_state validated = some approved
next_state approved = some released
next_state _ = none

unfoldable pub advance : Revision → Result Revision
advance r = elim (next_state r.state) [
  | none ↦ fail cannot_advance
  | some target ↦ ok (record r { state = target })
]

-- What the loop of `Release` leaves in the revision, and its error. `none` is fuel run out.
unfoldable pub release_loop : ℕ → Revision → Option (Revision × Option RevisionError)
unfolding advance
release_loop zero r = none
release_loop (suc fuel) r = elim (is_released r.state) [
  | true ↦ some (r, none)
  | false ↦ elim (advance r) [ fail e ↦ some (r, some e) | ok r' ↦ release_loop fuel r' ]
]

-- At most five transitions lead to `released`.
unfoldable pub release : Revision → Option (Revision × Option RevisionError)
release = release_loop 6
