-- ===== src/Documents/Examples.antt =====
-- A drawing and its package.
use stair_platform.Prelude.{
  ℕ, String, ◌≡◌, refl, true, Option, none, some, List, [], ◌∷◌, get_elem?,
}
use stair_platform.Documents.{Document, status_valid}
use stair_platform.Documents.Package.{DocumentPackage, find_document, first_invalid}
use stair_platform.Documents.Package.Unique.{add_all, add_all-AllFound}

abbrev drawing : String → Document ℕ
drawing id = record {
  id = id;
  type = "drawing";
  format = "pdf";
  status = "draft";
  template_id = "t1";
  config_id = "c1";
  metadata = record {
    title = "Stair";
    author = "ann";
    version = "1";
    created_at = 3;
    updated_at = 3;
    content_type = "pdf";
  };
  values = [];
  content = 5 ∷ [];
}

abbrev empty_package : DocumentPackage ℕ
empty_package = record {
  id = "p1";
  config_id = "c1";
  status = "pending";
  documents = [];
  created_at = 1;
  updated_at = 1;
}

-- The second has the id of the first, and the third is nil.
abbrev additions : List (Option (Document ℕ) × ℕ)
additions =
    (some (drawing "d1"), 4) ∷ (some (drawing "d1"), 5) ∷ (none, 6) ∷ (some (drawing "d2"), 7) ∷ []

add_all-AllFound_example :
    ((i : ℕ) (d : Document ℕ)
      → get_elem? (add_all additions empty_package).documents i ≡ some d
      → find_document d.id (add_all additions empty_package) ≡ some d)
    × (first_invalid 0 (add_all additions empty_package).documents ≡ none)
add_all-AllFound_example = add_all-AllFound additions empty_package refl

abbrev targets : List (String × ℕ)
targets = ("archived", 4) ∷ ("rendered", 5) ∷ ("lost", 6) ∷ ("archived", 7) ∷ []

draft_known : status_valid "draft" ≡ true
unfolding status_valid
draft_known = refl
