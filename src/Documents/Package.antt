-- ===== src/Documents/Package.antt =====
-- internal/domain/document/package.go: the set of documents of one configuration. AddDocument is
-- what fills its list and refuses nil, so the list holds documents.
pub mod Unique
use stair_platform.Prelude.{
  ℕ, ◌+◌, String, Bool, true, false, not, Option, none, some, List, [], ◌∷◌, ◌++◌, str_eq,
  if◌then◌else◌, contains, first_error, is_some,
}
use stair_platform.Documents.{
  Document, DocumentError, validate, package_required, document_required, package_id_required,
  package_config_id_required, package_status_invalid, no_documents, duplicate_document_id,
  package_document,
}

abbrev pub package_states : List String
package_states = "pending" ∷ "generated" ∷ "delivered" ∷ []

unfoldable pub package_status_valid : String → Bool
package_status_valid s = contains package_states s

pub record DocumentPackage (D : Type 0) : Type 0 where
  pub id : String
  pub config_id : String
  pub status : String
  pub documents : List (Document D)
  pub created_at : ℕ
  pub updated_at : ℕ

module _ {D : Type 0} where
  -- The loop of Validate, from the document of a position on.
  unfoldable pub first_invalid : ℕ → List (Document D) → Option DocumentError
  unfolding validate
  first_invalid i [] = none
  first_invalid i (d ∷ ds) = elim (validate (some d)) [
    | none ↦ first_invalid (i + 1) ds
    | some e ↦ some (package_document i e)
  ]

  abbrev pub is_empty : List (Document D) → Bool
  is_empty [] = true
  is_empty (_ ∷ _) = false

  unfoldable pub package_guards : DocumentPackage D → List (Bool × DocumentError)
  unfolding package_status_valid
  package_guards p =
      (str_eq p.id "", package_id_required)
      ∷ (str_eq p.config_id "", package_config_id_required)
      ∷ (not (package_status_valid p.status), package_status_invalid)
      ∷ (is_empty p.documents, no_documents)
      ∷ []

  unfoldable pub validate_package : Option (DocumentPackage D) → Option DocumentError
  unfolding package_guards first_error first_invalid
  validate_package none = some package_required
  validate_package (some p) = elim (first_error (package_guards p)) [
    | none ↦ first_invalid 0 p.documents
    | some e ↦ some e
  ]

  unfoldable pub find : String → List (Document D) → Option (Document D)
  find id [] = none
  find id (d ∷ ds) = let rest = find id ds in if str_eq d.id id then some d else rest

  unfoldable pub find_document : String → DocumentPackage D → Option (Document D)
  unfolding find
  find_document id p = find id p.documents

  unfoldable pub of_type : String → List (Document D) → List (Document D)
  of_type t [] = []
  of_type t (d ∷ ds) = let rest = of_type t ds in if str_eq d.type t then d ∷ rest else rest

  unfoldable pub documents_by_type : String → DocumentPackage D → List (Document D)
  unfolding of_type
  documents_by_type t p = of_type t p.documents

  -- The package, with the error.
  unfoldable pub add_document :
      Option (Document D) → ℕ → DocumentPackage D → DocumentPackage D × Option DocumentError
  unfolding validate find
  add_document none now p = (p, some document_required)
  add_document (some d) now p = elim (validate (some d)) [
    | some e ↦ (p, some e)
    | none ↦
        if is_some (find d.id p.documents)
        then (p, some duplicate_document_id)
        else (record p { documents = p.documents ++ d ∷ []; updated_at = now }, none)
  ]
