-- ===== src/Constraints/Activation.antt =====
-- The versions of a rule before and after Activate.
use stair_platform.Prelude.{
  ℕ, suc, String, ◌≡◌, refl, ap, ◌∙◌, ◌≢◌, inl, inr, true, false, Option, none, some, List, [], ◌∷◌,
  arith, str_eq, eq_iff, ◌==◌, if◌then◌else◌, Bool-cases, length, insert, lookup-insert, ℤ, eq_ℤ,
  Float, is_some,
}
use stair_platform.Constraints.{
  Constraint, ConstraintSet, versions, has_version, deactivate, set_active, activate, first_active,
  active, resolve, range_contains,
}

module _ {f : Float} where
  -- How many versions are active.
  unfoldable pub count_active : List (Constraint f) → ℕ
  count_active [] = 0
  count_active (c ∷ cs) = let rest = count_active cs in if c.active then suc rest else rest

  count_active-deactivate : (cs : List (Constraint f)) → count_active (deactivate cs) ≡ 0
  unfolding count_active deactivate
  count_active-deactivate [] = refl
  count_active-deactivate (c ∷ cs) = count_active-deactivate cs

  -- The version that a number means.
  unfoldable pub find_version : ℤ → List (Constraint f) → Option (Constraint f)
  find_version v [] = none
  find_version v (c ∷ cs) =
      let rest = find_version v cs in if eq_ℤ c.version v then some c else rest

  has_version_lem :
      (v : ℤ) (cs : List (Constraint f)) → has_version v cs ≡ is_some (find_version v cs)
  unfolding has_version find_version
  has_version_lem v [] = refl
  has_version_lem v (c ∷ cs) = elim (Bool-cases (eq_ℤ c.version v)) [
    | inl same ↦ rw same refl
    | inr other ↦ rw other (has_version_lem v cs)
  ]

  set_active_lem :
      (v : ℤ) (cs : List (Constraint f)) (found : Constraint f)
      → find_version v cs ≡ some found
      → (count_active (set_active v cs) ≡ 1)
        × (first_active (set_active v cs) ≡ some (record found { active = true }))
  unfolding count_active find_version set_active first_active
  set_active_lem v [] found h = absurd (ground arith)
  set_active_lem v (c ∷ cs) found h = elim (Bool-cases (eq_ℤ c.version v)) [
    | inl same ↦
        let here : c ≡ found = ground (arith, rw same at h) in
        rw same (ap suc (count_active-deactivate cs), rw here refl)
    | inr other ↦ rw other (set_active_lem v cs found (rw other at h))
  ]

  find_version-nonempty :
      (v : ℤ) (cs : List (Constraint f)) (found : Constraint f)
      → find_version v cs ≡ some found
      → (length cs == 0) ≡ false
  unfolding find_version
  find_version-nonempty v [] found h = absurd (ground arith)
  find_version-nonempty v (c ∷ cs) found h = ground arith

  versions-insert :
      (code other : String) (cs : List (Constraint f)) (s : ConstraintSet f)
      → versions other (record s { constraints = insert code cs s.constraints })
        ≡ (if str_eq code other then cs else versions other s)
  unfolding versions
  versions-insert code other cs s = ground (arith, lookup-insert code other cs s.constraints)

  activated :
      (code : String) (v : ℤ) (s : ConstraintSet f) (found : Constraint f)
      → find_version v (versions code s) ≡ some found
      → activate code v s ≡ (
        record s { constraints = insert code (set_active v (versions code s)) s.constraints },
        none,
      )
  unfolding activate
  activated code v s found h = ground (
    arith,
    find_version-nonempty v (versions code s) found h,
    has_version_lem v (versions code s),
  )

  pub not_activated :
      (code : String) (v : ℤ) (s : ConstraintSet f)
      → find_version v (versions code s) ≡ none
      → ((activate code v s).0 ≡ s) × (is_some (activate code v s).1 ≡ true)
  unfolding activate
  not_activated code v s h = ground (arith, has_version_lem v (versions code s))

  resolve_active :
      (code : String) (value : f.Carrier) (s : ConstraintSet f) (c : Constraint f)
      → first_active (versions code s) ≡ some c
      → resolve code value s ≡ (some c, range_contains c.range value)
  unfolding resolve active
  resolve_active code value s c h = rw (resolve, h) refl

  -- Where the rule has the version, Activate succeeds: exactly one version of the rule is active
  -- then, Resolve finds that one and judges a value by its range, and the other rules keep their
  -- versions.
  pub activate-resolve :
      (code : String) (v : ℤ) (s : ConstraintSet f) (found : Constraint f)
      → find_version v (versions code s) ≡ some found
      → ((activate code v s).1 ≡ none)
        × (count_active (versions code (activate code v s).0) ≡ 1)
        × ((value : f.Carrier)
            → resolve code value (activate code v s).0
              ≡ (some (record found { active = true }), range_contains found.range value))
        × ((other : String)
            → other ≢ code
            → versions other (activate code v s).0 ≡ versions other s)
  activate-resolve code v s found h =
      let cs = set_active v (versions code s) in
      let (one, first) = set_active_lem v (versions code s) found h in
      let t : ConstraintSet f = record s { constraints = insert code cs s.constraints } in
      let here : versions code t ≡ cs =
        ground (arith, versions-insert code code cs s, eq_iff code code) in
      rw (activated code v s found h) (
        refl,
        ap count_active here ∙ one,
        λ value.
            resolve_active code value t (record found { active = true })
              (ap first_active here ∙ first),
        λ other apart. ground (arith, versions-insert code other cs s, eq_iff code other),
      )
