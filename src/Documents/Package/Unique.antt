-- ===== src/Documents/Package/Unique.antt =====
-- The documents of a package that AddDocument has filled.
use stair_platform.Prelude.{
  ℕ, zero, suc, ◌+◌, String, ◌≡◌, refl, sym, ◌⊎◌, inl, inr, false, Option, none, some, List, [],
  ◌∷◌, ◌++◌, arith, str_eq, eq_iff, if◌then◌else◌, Bool-cases, Option-cases, get_elem?, is_some,
}
use stair_platform.Documents.{Document, validate}
use stair_platform.Documents.Package.{
  DocumentPackage, find, find_document, add_document, first_invalid,
}

module _ {D : Type 0} where
  -- Each document is the one that its id finds.
  abbrev pub AllFound : List (Document D) → Type 0
  AllFound ds = (i : ℕ) (d : Document D) → get_elem? ds i ≡ some d → find d.id ds ≡ some d

  unfoldable pub add_all : List (Option (Document D) × ℕ) → DocumentPackage D → DocumentPackage D
  add_all [] p = p
  add_all ((d, now) ∷ adds) p = add_all adds (add_document d now p).0

  find-snoc :
      (id : String) (ds : List (Document D)) (d : Document D)
      → find id (ds ++ d ∷ [])
        ≡ (if is_some (find id ds) then find id ds else if str_eq d.id id then some d else none)
  unfolding find
  find-snoc id [] d = refl
  find-snoc id (e ∷ ds) d = ground (arith, find-snoc id ds d)

  get_elem?-snoc :
      (i : ℕ) (ds : List (Document D)) (d e : Document D)
      → get_elem? (ds ++ d ∷ []) i ≡ some e
      → (get_elem? ds i ≡ some e) ⊎ (d ≡ e)
  get_elem?-snoc zero [] d e h = inr (ground arith)
  get_elem?-snoc (suc i) [] d e h = absurd (ground arith)
  get_elem?-snoc zero (x ∷ ds) d e h = inl h
  get_elem?-snoc (suc i) (x ∷ ds) d e h = get_elem?-snoc i ds d e h

  snoc-AllFound :
      (ds : List (Document D)) (d : Document D)
      → AllFound ds
      → is_some (find d.id ds) ≡ false
      → AllFound (ds ++ d ∷ [])
  snoc-AllFound ds d all new i e h = elim (get_elem?-snoc i ds d e h) [
    | inl old ↦ ground (arith, find-snoc e.id ds d, all i e old)
    | inr same ↦ rw (sym same) (ground (arith, find-snoc d.id ds d, eq_iff d.id d.id))
  ]

  first_invalid-snoc :
      (i : ℕ) (ds : List (Document D)) (d : Document D)
      → first_invalid i ds ≡ none
      → validate (some d) ≡ none
      → first_invalid i (ds ++ d ∷ []) ≡ none
  unfolding first_invalid
  first_invalid-snoc i [] d h v = rw (first_invalid, v) refl
  first_invalid-snoc i (e ∷ ds) d h v = elim (Option-cases (validate (some e))) [
    | inl fine ↦ ground (arith, first_invalid-snoc (i + 1) ds d)
    | inr (err, bad) ↦ absurd (ground arith)
  ]

  abbrev Good : List (Document D) → Type 0
  Good ds = AllFound ds × (first_invalid 0 ds ≡ none)

  -- AddDocument appends a valid document with a new id, or changes nothing.
  add_document-cases :
      (d : Option (Document D)) (now : ℕ) (p : DocumentPackage D)
      → ((add_document d now p).0 ≡ p)
        ⊎ ((e : Document D) × (validate (some e) ≡ none)
            × (is_some (find e.id p.documents) ≡ false)
            × ((add_document d now p).0
                ≡ record p { documents = p.documents ++ e ∷ []; updated_at = now }))
  unfolding add_document
  add_document-cases none now p = inl refl
  add_document-cases (some d) now p = elim (Option-cases (validate (some d))) [
    | inr (e, bad) ↦ inl (ground arith)
    | inl fine ↦ elim (Bool-cases (is_some (find d.id p.documents))) [
      | inl there ↦ inl (ground arith)
      | inr new ↦ inr (d, fine, new, ground arith)
    ]
  ]

  add_document-Good :
      (d : Option (Document D)) (now : ℕ) (p : DocumentPackage D)
      → Good p.documents
      → Good (add_document d now p).0.documents
  add_document-Good d now p (all, valid) = elim (add_document-cases d now p) [
    | inl same ↦ rw same (all, valid)
    | inr (e, fine, new, added) ↦
        rw added
          (snoc-AllFound p.documents e all new, first_invalid-snoc 0 p.documents e valid fine)
  ]

  add_all-Good :
      (adds : List (Option (Document D) × ℕ)) (p : DocumentPackage D)
      → Good p.documents
      → Good (add_all adds p).documents
  unfolding add_all
  add_all-Good [] p good = good
  add_all-Good ((d, now) ∷ adds) p good =
      add_all-Good adds (add_document d now p).0 (add_document-Good d now p good)

  -- In a package without documents that any calls of AddDocument fill, FindDocument finds each
  -- document under its own id, and Validate finds no invalid one.
  pub add_all-AllFound :
      (adds : List (Option (Document D) × ℕ)) (p : DocumentPackage D)
      → p.documents ≡ []
      → ((i : ℕ) (d : Document D)
          → get_elem? (add_all adds p).documents i ≡ some d
          → find_document d.id (add_all adds p) ≡ some d)
        × (first_invalid 0 (add_all adds p).documents ≡ none)
  unfolding find_document first_invalid
  add_all-AllFound adds p empty =
      add_all-Good adds p (rw empty ((λ i d h. absurd (ground arith)), refl))
