-- ===== src/Documents.antt =====
-- internal/domain/document/document.go: documents and templates. A pointer argument is an Option;
-- `D` is the type of the data for rendering and times are numbers.
pub mod Package
pub mod Lifecycle
mod Examples
-- The types, formats and states that are known; each is a text.
use stair_platform.Prelude.{
  ℕ, String, Bool, false, not, ◌||◌, Option, none, some, List, [], ◌∷◌, str_eq, if◌then◌else◌,
  contains, first_error,
}

abbrev pub document_types : List String
document_types =
    "technical_spec" ∷ "drawing" ∷ "letter" ∷ "manufacturing" ∷ "assembly" ∷ "cost_estimate" ∷ []

abbrev pub document_formats : List String
document_formats = "pdf" ∷ "docx" ∷ "html" ∷ "json" ∷ []

abbrev pub draft : String
draft = "draft"

abbrev pub rendered : String
rendered = "rendered"

abbrev pub archived : String
archived = "archived"

unfoldable pub type_valid : String → Bool
type_valid t = contains document_types t

unfoldable pub format_valid : String → Bool
format_valid f = contains document_formats f

unfoldable pub status_valid : String → Bool
status_valid s = str_eq s draft || str_eq s rendered || str_eq s archived

pub record DocumentMetadata : Type 0 where
  pub title : String
  pub author : String
  pub version : String
  pub created_at : ℕ
  pub updated_at : ℕ
  pub content_type : String

pub record Document (D : Type 0) : Type 0 where
  pub id : String
  pub type : String
  pub format : String
  pub status : String
  pub template_id : String
  pub config_id : String
  pub metadata : DocumentMetadata
  pub values : List (String × D)
  pub content : List ℕ

pub data DocumentError : Type 0 where
  document_required id_required invalid_type invalid_format invalid_status : DocumentError
  template_id_required config_id_required title_required : DocumentError
  invalid_target cannot_transition : DocumentError
  template_required template_name_required content_type_required : DocumentError
  package_required package_id_required package_config_id_required : DocumentError
  package_status_invalid no_documents duplicate_document_id : DocumentError
  package_document : ℕ → DocumentError → DocumentError

module _ {D : Type 0} where
  unfoldable pub document_guards : Document D → List (Bool × DocumentError)
  unfolding type_valid format_valid status_valid
  document_guards d =
      (str_eq d.id "", id_required)
      ∷ (not (type_valid d.type), invalid_type)
      ∷ (not (format_valid d.format), invalid_format)
      ∷ (not (status_valid d.status), invalid_status)
      ∷ (str_eq d.template_id "", template_id_required)
      ∷ (str_eq d.config_id "", config_id_required)
      ∷ (str_eq d.metadata.title "", title_required)
      ∷ []

  unfoldable pub validate : Option (Document D) → Option DocumentError
  unfolding document_guards first_error
  validate none = some document_required
  validate (some d) = first_error (document_guards d)

  unfoldable pub can_transition_to : String → Document D → Bool
  can_transition_to target d =
      if str_eq d.status draft
      then str_eq target rendered
      else if str_eq d.status rendered
      then str_eq target archived
      else false

  -- The document, with the error.
  unfoldable pub transition_to : String → ℕ → Document D → Document D × Option DocumentError
  unfolding can_transition_to status_valid
  transition_to target now d =
      if not (status_valid target)
      then (d, some invalid_target)
      else if not (can_transition_to target d)
      then (d, some cannot_transition)
      else (record d { status = target; metadata = record d.metadata { updated_at = now } }, none)

pub record TemplateField : Type 0 where
  pub name : String
  pub type : String
  pub required : Bool
  pub description : String

pub record Template : Type 0 where
  pub id : String
  pub type : String
  pub name : String
  pub content_type : String
  pub fields : List TemplateField

unfoldable pub template_guards : Template → List (Bool × DocumentError)
unfolding type_valid
template_guards t =
    (str_eq t.id "", id_required)
    ∷ (not (type_valid t.type), invalid_type)
    ∷ (str_eq t.name "", template_name_required)
    ∷ (str_eq t.content_type "", content_type_required)
    ∷ []

unfoldable pub validate_template : Option Template → Option DocumentError
unfolding template_guards first_error
validate_template none = some template_required
validate_template (some t) = first_error (template_guards t)
