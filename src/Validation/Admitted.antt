-- ===== src/Validation/Admitted.antt =====
-- `Validate` against the versions that a set of rules has for its codes.
use stair_platform.Prelude.{
  ◌≡◌, ◌↔◌, refl, sym, ◌∙◌, inl, inr, String, true, false, not, none, some, List, [], ◌∷◌, arith,
  All, All_map, Bool-cases, Option-cases, lookup, pos, Float,
}
use stair_platform.Engineering.Stair.Config.{StairConfiguration}
use stair_platform.Constraints.{
  Constraint, ConstraintSet, Range, active, first_active, versions, range_contains,
}
use stair_platform.Validation.{Binding, Printing, bindings, degrees, validate}
use stair_platform.Validation.Reports.{Holds, validate-Holds}

module _ {f : Float} where
  -- The first active version of a rule among the versions of its code: those before it are not
  -- active.
  pub data IsFirstActive (rule : Constraint f) : List (Constraint f) → Type 0 where
    at_head : {cs : List (Constraint f)} → rule.active ≡ true → IsFirstActive rule (rule ∷ cs)
    behind :
        {c : Constraint f} {cs : List (Constraint f)}
        → c.active ≡ false
        → IsFirstActive rule cs
        → IsFirstActive rule (c ∷ cs)

  -- The value is above a lower and below an upper bound of the range, with the tolerance.
  pub record IsWithin (r : Range f) (value : f.Carrier) : Type 0 where
    pub not_below : r.has_min ≡ true → f.lt (f.plus value r.tolerance) r.min ≡ false
    pub not_above : r.has_max ≡ true → f.lt r.max (f.minus value r.tolerance) ≡ false

  -- The first active version under a code, if its severity is that of an error, admits the value.
  abbrev pub Admits : ConstraintSet f → String → f.Carrier → Type 0
  Admits set code value =
      (cs : List (Constraint f)) (rule : Constraint f)
      → lookup code set.constraints ≡ some cs
      → IsFirstActive rule cs
      → rule.severity ≡ "error"
      → IsWithin rule.range value

  range_contains-IsWithin :
      (r : Range f) (value : f.Carrier) → (range_contains r value ≡ true) ↔ IsWithin r value
  unfolding range_contains
  range_contains-IsWithin r value = (
    λ h. record { not_below = λ m. ground (arith, h, m); not_above = λ m. ground (arith, h, m) },
    λ w. elim (Bool-cases r.has_min) [
      | inl m ↦ elim (Bool-cases r.has_max) [
        | inl n ↦ ground (arith, m, n, w.not_below m, w.not_above n)
        | inr n ↦ ground (arith, m, n, w.not_below m)
      ]
      | inr m ↦ elim (Bool-cases r.has_max) [
        | inl n ↦ ground (arith, m, n, w.not_above n)
        | inr n ↦ ground (arith, m, n)
      ]
    ],
  )

  first_active-IsFirstActive :
      (cs : List (Constraint f)) (rule : Constraint f)
      → first_active cs ≡ some rule
      → IsFirstActive rule cs
  unfolding first_active
  first_active-IsFirstActive [] rule h = absurd (ground (arith, h))
  first_active-IsFirstActive (c ∷ cs) rule h = elim (Bool-cases c.active) [
    | inl e ↦ let same : c ≡ rule = ground (arith, rw e at h) in rw (sym same) (at_head e)
    | inr e ↦ behind e (first_active-IsFirstActive cs rule (rw e at h))
  ]

  IsFirstActive-first_active :
      (cs : List (Constraint f)) (rule : Constraint f)
      → IsFirstActive rule cs
      → first_active cs ≡ some rule
  unfolding first_active
  IsFirstActive-first_active [] rule h = elim h [ ]
  IsFirstActive-first_active (_ ∷ cs) rule (at_head e) = rw e refl
  IsFirstActive-first_active (c ∷ cs) rule (behind e h) =
      rw e (IsFirstActive-first_active cs rule h)

  active_lem :
      (code : String) (set : ConstraintSet f) (cs : List (Constraint f))
      → lookup code set.constraints ≡ some cs
      → active code set ≡ first_active cs
  unfolding active versions
  active_lem code set cs e = rw (e, active, versions) refl

  active-none :
      (code : String) (set : ConstraintSet f)
      → lookup code set.constraints ≡ none
      → active code set ≡ none
  unfolding active versions first_active
  active-none code set e = rw (e, active, versions) refl

  module _ (go : Printing f) where
    Holds-Admits :
        (cfg : StairConfiguration f.Carrier) (set : ConstraintSet f) (b : Binding f)
        → Holds go cfg set b ↔ Admits set b.code (b.value cfg)
    Holds-Admits cfg set b = (
      λ h cs rule e first severe.
          (range_contains-IsWithin rule.range (b.value cfg)).0
            (h rule (active_lem b.code set cs e ∙ IsFirstActive-first_active cs rule first) severe),
      λ h rule e severe. elim (Option-cases (lookup b.code set.constraints)) [
        | inl missing ↦ absurd (ground (arith, e, active-none b.code set missing))
        | inr (cs, there) ↦ (range_contains-IsWithin rule.range (b.value cfg)).1 (
            h cs rule there
              (first_active-IsFirstActive cs rule (sym (active_lem b.code set cs there) ∙ e))
              severe)
      ],
    )

    All-Admits :
        (cfg : StairConfiguration f.Carrier) (set : ConstraintSet f) (bs : List (Binding f))
        → All (Holds go cfg set) bs ↔ All (λ (b : Binding f). Admits set b.code (b.value cfg)) bs
    All-Admits cfg set bs = (
      λ a. All_map (λ b h. (Holds-Admits cfg set b).0 h) bs a,
      λ a. All_map (λ b h. (Holds-Admits cfg set b).1 h) bs a,
    )

    -- Over any rules, a validation is valid exactly if it is not blocking, and exactly if the rules
    -- of the step height, the tread depth, the angle in degrees, the clearance, the thickness of the
    -- stringers and the height of the railing admit the values of the staircase: under each of the six
    -- codes, the first active version, if there is one and its severity is that of an error.
    pub validate-Admits :
        (cfg : StairConfiguration f.Carrier) (set : ConstraintSet f)
        → ((validate go cfg set).valid ≡ not (validate go cfg set).blocking)
          × (((validate go cfg set).valid ≡ true) ↔ (
              Admits set "GEO-STEP-HEIGHT" cfg.step_height
              × Admits set "GEO-TREAD-DEPTH" cfg.tread_depth
              × Admits set "GEO-ANGLE" (f.over (f.times cfg.angle (f.of_int (pos 180))) go.pi)
              × Admits set "GEO-CLEARANCE" cfg.clearance
              × Admits set "GEO-STRINGER-THICKNESS" cfg.stringer_thickness
              × Admits set "SAF-RAILING-HEIGHT" cfg.railing_height))
    unfolding bindings degrees
    validate-Admits cfg set =
        let (opposite, valid) = validate-Holds go cfg set in
        let each = All-Admits cfg set (bindings go) in
        (
          opposite,
          (
            λ h.
                let x = each.0 (valid.0 h) in
                (x.0, x.1.0, x.1.1.0, x.1.1.1.0, x.1.1.1.1.0, x.1.1.1.1.1.0),
            λ h. valid.1 (each.1 (h.0, (h.1, (h.2, (h.3, (h.4, (h.5, tt))))))),
          ),
        )
