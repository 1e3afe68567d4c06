-- ===== src/Constraints/Integrity.antt =====
-- internal/engine/constraint/standard.go: `ValidateIntegrity`, the check of a set of rules. A
-- violation is a value in the place of its text; the codes are read in the order of the map's list.
use stair_platform.Prelude.{
  ℕ, ◌≤◌, ◌≡◌, ◌↔◌, ◌≢◌, refl, sym, inl, inr, String, Bool, true, false, ◌&&◌, List, [], ◌∷◌, ◌++◌,
  if◌then◌else◌, arith, All, All_map, All_both, All_of, Bool-cases, ltb, ℤ, eq_ℤ, Float,
}
use stair_platform.Constraints.{Constraint, ConstraintSet, Range}
use stair_platform.Constraints.Activation.{count_active}

pub data Violation : Type 0 where
  duplicate_version : String → ℤ → Violation
  overlapping_ranges : String → ℤ → ℤ → Violation
  multiple_active : String → ℕ → Violation

-- `seenVersions[v]`
unfoldable pub seen : ℤ → List ℤ → Bool
seen v [] = false
seen v (w ∷ ws) = if eq_ℤ v w then true else seen v ws

eq_ℤ_iff : (a b : ℤ) → (eq_ℤ a b ≡ true) ↔ (a ≡ b)
eq_ℤ_iff a b = (λ h. ground (arith, h), λ e. ground (arith, e))

module _ {f : Float} where
  unfoldable pub ranges_overlap : Range f → Range f → Bool
  ranges_overlap a b =
      if a.has_max && b.has_min && f.lt a.max b.min
      then false
      else if b.has_max && a.has_min && f.lt b.max a.min
      then false
      else true

  -- The inner loop, over the later versions.
  unfoldable pub overlaps : String → Constraint f → List (Constraint f) → List Violation
  unfolding ranges_overlap
  overlaps code c [] = []
  overlaps code c (d ∷ ds) =
      let rest = overlaps code c ds in
      if ranges_overlap c.range d.range
      then overlapping_ranges code c.version d.version ∷ rest
      else rest

  -- The loop over the versions of a code, with those that it has seen.
  unfoldable pub version_violations : String → List ℤ → List (Constraint f) → List Violation
  unfolding seen overlaps
  version_violations code earlier [] = []
  version_violations code earlier (c ∷ cs) =
      let rest = overlaps code c cs ++ version_violations code (c.version ∷ earlier) cs in
      if seen c.version earlier then duplicate_version code c.version ∷ rest else rest

  unfoldable pub code_violations : String → List (Constraint f) → List Violation
  unfolding version_violations count_active
  code_violations code cs =
      version_violations code [] cs
      ++ (if ltb 1 (count_active cs) then multiple_active code (count_active cs) ∷ [] else [])

  unfoldable pub all_violations : List (String × List (Constraint f)) → List Violation
  unfolding code_violations
  all_violations [] = []
  all_violations ((code, cs) ∷ rest) = code_violations code cs ++ all_violations rest

  unfoldable pub validate_integrity : ConstraintSet f → List Violation
  unfolding all_violations
  validate_integrity set = all_violations set.constraints

  -- One range ends before the other begins.
  pub data Apart (a b : Range f) : Type 0 where
    before : a.has_max ≡ true → b.has_min ≡ true → f.lt a.max b.min ≡ true → Apart a b
    after : b.has_max ≡ true → a.has_min ≡ true → f.lt b.max a.min ≡ true → Apart a b

  -- Two versions that can stand beside each other: of different numbers, with ranges that are apart,
  -- and not both active.
  pub record Fits (c d : Constraint f) : Type 0 where
    pub differ : c.version ≢ d.version
    pub apart : Apart c.range d.range
    pub one_active : c.active ≡ true → d.active ≡ true → ⊥

  -- Every two versions fit.
  abbrev pub Separate : List (Constraint f) → Type 0
  Separate [] = Unit
  Separate (c ∷ cs) = All (Fits c) cs × Separate cs

  ranges_overlap-Apart : (a b : Range f) → (ranges_overlap a b ≡ false) ↔ Apart a b
  unfolding ranges_overlap
  ranges_overlap-Apart a b = (
    λ h. elim (Bool-cases (a.has_max && b.has_min && f.lt a.max b.min)) [
      | inl e ↦ before (ground arith) (ground arith) (ground arith)
      | inr e ↦ after (ground arith) (ground arith) (ground arith)
    ],
    λ h. elim h [ before x y z ↦ ground (arith, x, y, z) | after x y z ↦ ground (arith, x, y, z) ],
  )

  overlaps_nil :
      (code : String) (c : Constraint f) (ds : List (Constraint f))
      → (overlaps code c ds ≡ []) ↔ All (λ d. ranges_overlap c.range d.range ≡ false) ds
  unfolding overlaps
  overlaps_nil code c [] = (λ _. tt, λ _. refl)
  overlaps_nil code c (d ∷ ds) = elim (Bool-cases (ranges_overlap c.range d.range)) [
    | inl e ↦ (λ h. absurd (ground (arith, rw e at h)), λ a. absurd (ground (arith, a.0)))
    | inr e ↦ (
      λ h. (e, (overlaps_nil code c ds).0 (rw e at h)),
      λ a. rw e ((overlaps_nil code c ds).1 a.1),
    )
  ]

  -- The comparison of two versions in the words of the code.
  abbrev Compared : Constraint f → Constraint f → Type 0
  Compared c d = (eq_ℤ d.version c.version ≡ false) × (ranges_overlap c.range d.range ≡ false)

  -- `Separate` in the words of the code, without the active versions.
  abbrev Distinct : List (Constraint f) → Type 0
  Distinct [] = Unit
  Distinct (c ∷ cs) = All (Compared c) cs × Distinct cs

  abbrev Unseen : List ℤ → List (Constraint f) → Type 0
  Unseen earlier = All (λ (c : Constraint f). seen c.version earlier ≡ false)

  Unseen-split :
      (v : ℤ) (earlier : List ℤ) (cs : List (Constraint f))
      → Unseen (v ∷ earlier) cs
      → All (λ (d : Constraint f). eq_ℤ d.version v ≡ false) cs × Unseen earlier cs
  unfolding seen
  Unseen-split v earlier [] u = (tt, tt)
  Unseen-split v earlier (d ∷ ds) u =
      let (a, b) = Unseen-split v earlier ds u.1 in ((ground arith, a), (ground arith, b))

  Unseen-join :
      (v : ℤ) (earlier : List ℤ) (cs : List (Constraint f))
      → All (λ (d : Constraint f). eq_ℤ d.version v ≡ false) cs
      → Unseen earlier cs
      → Unseen (v ∷ earlier) cs
  unfolding seen
  Unseen-join v earlier [] a u = tt
  Unseen-join v earlier (d ∷ ds) a u = (ground arith, Unseen-join v earlier ds a.1 u.1)

  version_violations-Distinct :
      (code : String) (earlier : List ℤ) (cs : List (Constraint f))
      → version_violations code earlier cs ≡ []
      → Distinct cs × Unseen earlier cs
  unfolding version_violations
  version_violations-Distinct code earlier [] h = (tt, tt)
  version_violations-Distinct code earlier (c ∷ cs) h =
      let fresh : seen c.version earlier ≡ false = ground arith in
      let none_meet : overlaps code c cs ≡ [] = ground arith in
      let rest : version_violations code (c.version ∷ earlier) cs ≡ [] = ground arith in
      let (separate, unseen) = version_violations-Distinct code (c.version ∷ earlier) cs rest in
      let (differ, unseen') = Unseen-split c.version earlier cs unseen in
      (
        (
          All_both (λ (d : Constraint f). eq_ℤ d.version c.version ≡ false)
              (λ (d : Constraint f). ranges_overlap c.range d.range ≡ false) cs differ
              ((overlaps_nil code c cs).0 none_meet),
          separate,
        ),
        (fresh, unseen'),
      )

  Distinct-version_violations :
      (code : String) (earlier : List ℤ) (cs : List (Constraint f))
      → Distinct cs
      → Unseen earlier cs
      → version_violations code earlier cs ≡ []
  unfolding version_violations
  Distinct-version_violations code earlier [] s u = refl
  Distinct-version_violations code earlier (c ∷ cs) s u =
      let none_meet : overlaps code c cs ≡ [] =
        (overlaps_nil code c cs).1 (All_map (λ d p. p.1) cs s.0) in
      let rest =
        Distinct-version_violations code (c.version ∷ earlier) cs s.1
          (Unseen-join c.version earlier cs (All_map (λ d p. p.0) cs s.0) u.1) in
      rw (u.0, none_meet, rest) refl

  abbrev Idle : List (Constraint f) → Type 0
  Idle = All (λ (d : Constraint f). d.active ≡ false)

  count_active-Idle : (cs : List (Constraint f)) → (count_active cs ≡ 0) ↔ Idle cs
  unfolding count_active
  count_active-Idle [] = (λ _. tt, λ _. refl)
  count_active-Idle (c ∷ cs) = elim (Bool-cases c.active) [
    | inl e ↦ (λ h. absurd (ground (arith, rw e at h)), λ h. absurd (ground (arith, e, h.0)))
    | inr e ↦
        (λ h. (e, (count_active-Idle cs).0 (rw e at h)), λ h. rw e ((count_active-Idle cs).1 h.1))
  ]

  Compared-Fits :
      (c : Constraint f) (cs : List (Constraint f))
      → All (Compared c) cs
      → (c.active ≡ true → Idle cs)
      → All (Fits c) cs
  Compared-Fits c [] a idle = tt
  Compared-Fits c (d ∷ ds) a idle = (
    record {
      differ = λ e. ground (arith, a.0, (eq_ℤ_iff d.version c.version).1 (sym e));
      apart = (ranges_overlap-Apart c.range d.range).0 a.0.1;
      one_active = λ x y. ground (arith, y, (idle x).0);
    },
    Compared-Fits c ds a.1 (λ x. (idle x).1),
  )

  Fits-Compared : (c d : Constraint f) → Fits c d → Compared c d
  Fits-Compared c d fits = (
    elim (Bool-cases (eq_ℤ d.version c.version)) [
      | inl e ↦ absurd (fits.differ (sym ((eq_ℤ_iff d.version c.version).0 e)))
      | inr e ↦ e
    ],
    (ranges_overlap-Apart c.range d.range).1 fits.apart,
  )

  Fits-Idle : (c d : Constraint f) → c.active ≡ true → Fits c d → d.active ≡ false
  Fits-Idle c d x fits = elim (Bool-cases d.active) [
    | inl y ↦ absurd (fits.one_active x y)
    | inr y ↦ y
  ]

  -- Versions that are distinct and of which at most one is active.
  Distinct-Separate :
      (cs : List (Constraint f)) → (Distinct cs × (count_active cs ≤ 1)) ↔ Separate cs
  unfolding count_active
  Distinct-Separate [] = (λ _. tt, λ _. (tt, omega arith))
  Distinct-Separate (c ∷ cs) = (
    λ h. (
      Compared-Fits c cs h.0.0 (λ x. (count_active-Idle cs).0 (ground (arith, x, h.1))),
      (Distinct-Separate cs).0 (h.0.1, ground (arith, h.1)),
    ),
    λ h.
        let (distinct, bounded) = (Distinct-Separate cs).1 h.1 in
        (
          (All_map (Fits-Compared c) cs h.0, distinct),
          elim (Bool-cases c.active) [
            | inl x ↦
                let idle = (count_active-Idle cs).1 (All_map (λ d k. Fits-Idle c d x k) cs h.0) in
                rw x (ground (arith, idle))
            | inr x ↦ rw x bounded
          ],
        ),
  )

  code_violations-Distinct :
      (code : String) (cs : List (Constraint f))
      → (code_violations code cs ≡ []) ↔ (Distinct cs × (count_active cs ≤ 1))
  unfolding code_violations
  code_violations-Distinct code cs = (
    λ h.
        let versions_fit : version_violations code [] cs ≡ [] = ground arith in
        ((version_violations-Distinct code [] cs versions_fit).0, ground arith),
    λ p.
        let versions_fit = Distinct-version_violations code [] cs p.0 (All_of (λ c. refl) cs) in
        rw versions_fit (ground arith),
  )

  code_violations-Separate :
      (code : String) (cs : List (Constraint f)) → (code_violations code cs ≡ []) ↔ Separate cs
  code_violations-Separate code cs = (
    λ h. (Distinct-Separate cs).0 ((code_violations-Distinct code cs).0 h),
    λ p. (code_violations-Distinct code cs).1 ((Distinct-Separate cs).1 p),
  )

  all_violations-Separate :
      (es : List (String × List (Constraint f)))
      → (all_violations es ≡ []) ↔ All (λ (e : String × List (Constraint f)). Separate e.1) es
  unfolding all_violations
  all_violations-Separate [] = (λ _. tt, λ _. refl)
  all_violations-Separate ((code, cs) ∷ es) = (
    λ h.
        let here : code_violations code cs ≡ [] = ground arith in
        let there : all_violations es ≡ [] = ground arith in
        ((code_violations-Separate code cs).0 here, (all_violations-Separate es).0 there),
    λ a. rw ((code_violations-Separate code cs).1 a.0, (all_violations-Separate es).1 a.1) refl,
  )

  -- `ValidateIntegrity` reports nothing exactly if, of any two versions of a code, the numbers
  -- differ, the range of one ends before that of the other begins, and not both are active. A code
  -- without an active version is not reported.
  pub validate_integrity-Separate :
      (set : ConstraintSet f)
      → (validate_integrity set ≡ [])
        ↔ All (λ (e : String × List (Constraint f)). Separate e.1) set.constraints
  unfolding validate_integrity
  validate_integrity-Separate set = all_violations-Separate set.constraints
