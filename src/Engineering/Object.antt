-- ===== src/Engineering/Object.antt =====
-- internal/domain/engineering/object.go: the engineering object. Its mutex makes each method one
-- step. `Current` is always the newest revision of the history and shares its pointer, so the
-- record holds it once, beside the older ones; a revision's position in the history stands for a
-- pointer to it.
pub mod Lifecycle
pub mod History
use stair_platform.Prelude.{
  ℕ, String, Bool, true, false, Option, none, some, List, [], ◌∷◌, ◌++◌, str_eq, if◌then◌else◌,
  length, lookup, insert, is_some,
}
use stair_platform.Engineering.Revision.{Revision, RevisionError, ok, fail, new_revision, child}
use stair_platform.Engineering.Parameter.{Parameter}
use Prim.Native.String.{◌++◌ as concat}

pub data EngineeringState : Type 0 where
  created draft editing calculated validated approved released archived : EngineeringState

-- `string(target)`
abbrev pub state_name : EngineeringState → String
state_name created = "created"
state_name draft = "draft"
state_name editing = "editing"
state_name calculated = "calculated"
state_name validated = "validated"
state_name approved = "approved"
state_name released = "released"
state_name archived = "archived"

pub data ObjectError : Type 0 where
  id_required owner_required parameter_exists transition_not_allowed : ObjectError
  revision_error : RevisionError → ObjectError

pub record DomainEvent : Type 0 where
  pub type : String
  pub object_id : String
  pub revision : String
  pub timestamp : String
  pub correlation_id : String
  pub source : String
  pub actor : String

pub record EngineeringObject (V : Type 0) : Type 0 where
  pub id : String
  pub kind : String
  pub state : EngineeringState
  pub owner : String
  pub current : Revision
  pub older : List Revision
  pub params : List (String × Parameter V)
  pub metadata : List (String × String)
  pub events : List DomainEvent
  pub correlation_id : String

-- What a constructor returns: an object or an error.
pub data Made (A : Type 0) : Type 0 where
  made : A → Made A
  refused : ObjectError → Made A

-- `History()`, oldest first.
unfoldable pub history : {V : Type 0} → EngineeringObject V → List Revision
history o = o.older ++ o.current ∷ []

-- The revision of a new object: `NewRevision` with the object's id for its snapshot.
module _ (checksum : String → String) where
  unfoldable pub new_object :
      {V : Type 0} → String → ℕ → String → String → String → String → Made (EngineeringObject V)
  new_object rev_id now id kind owner reason =
      if str_eq id ""
      then refused id_required
      else if str_eq owner ""
      then refused owner_required
      else elim (new_revision rev_id now owner reason (checksum id)) [
        | fail e ↦ refused (revision_error e)
        | ok rev ↦ made (record {
          id = id;
          kind = kind;
          state = created;
          owner = owner;
          current = rev;
          older = [];
          params = [];
          metadata = [];
          events = [];
          correlation_id = "";
        })
      ]

-- The map `allowed` of `Transition`.
abbrev pub allowed : EngineeringState → EngineeringState → Bool
allowed created draft = true
allowed draft editing = true
allowed editing calculated = true
allowed calculated validated = true
allowed validated approved = true
allowed approved released = true
allowed released archived = true
allowed _ _ = false

module _ {V : Type 0} where
  unfoldable pub event : String → String → EngineeringObject V → DomainEvent
  event typ object_id o = record {
    type = typ;
    object_id = object_id;
    revision = o.current.id;
    timestamp = "";
    correlation_id = o.correlation_id;
    source = "engineering";
    actor = o.owner;
  }

  unfoldable pub add_event : String → String → EngineeringObject V → EngineeringObject V
  unfolding event
  add_event typ object_id o = record o { events = o.events ++ event typ object_id o ∷ [] }

  unfoldable pub add_parameter :
      Parameter V → EngineeringObject V → EngineeringObject V × Option ObjectError
  unfolding add_event
  add_parameter p o =
      if is_some (lookup p.id o.params)
      then (o, some parameter_exists)
      else (add_event "parameter.added" p.id (record o { params = insert p.id p o.params }), none)

  -- `snapshotForChecksum`
  unfoldable pub snapshot_for_checksum : EngineeringObject V → String
  snapshot_for_checksum o = concat o.id (concat "|" (concat o.kind (concat "|" o.current.id)))

  unfoldable pub transition :
      EngineeringState → EngineeringObject V → EngineeringObject V × Option ObjectError
  unfolding add_event
  transition target o =
      if allowed o.state target
      then (
        add_event "object.state_changed" (state_name target) (record o { state = target }),
        none,
      )
      else (o, some transition_not_allowed)

  unfoldable pub set_correlation_id : String → EngineeringObject V → EngineeringObject V
  set_correlation_id id o = record o { correlation_id = id }

  module _ (checksum : String → String) where
    unfoldable pub commit :
        String
        → ℕ
        → String
        → String
        → EngineeringObject V
        → EngineeringObject V × Option ObjectError
    unfolding add_event
    commit rev_id now author reason o =
        elim (child o.current (length o.older) rev_id now author reason
          (checksum (snapshot_for_checksum o))) [
            | fail e ↦ (o, some (revision_error e))
            | ok next ↦ (
              add_event "revision.created" next.id
                  (record o { current = next; older = o.older ++ o.current ∷ []; state = editing }),
              none,
            )
          ]
