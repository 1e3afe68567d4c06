-- ===== src/Validation/Reports.antt =====
-- What `Validate` reports, over any set of rules.
use stair_platform.Prelude.{
  ℕ, suc, ◌≡◌, ◌↔◌, refl, sym, ◌∙◌, inl, inr, String, Bool, true, false, not, ◌&&◌, ◌||◌, Option,
  none, some, List, [], ◌∷◌, str_eq, eq_iff, if◌then◌else◌, arith, All, Bool-cases, Option-cases,
  Float, sort_by, insert_by, insert_each,
}
use stair_platform.Engineering.Stair.Config.{StairConfiguration}
use stair_platform.Constraints.{Constraint, ConstraintSet, active, resolve, range_contains}
use stair_platform.Validation.{
  Issue, Binding, Printing, has_severity, code_before, advise, issue_of, add_issue, issues_of,
  numbered, bindings, validate,
}

module _ {f : Float} where
  has_severity-insert_by :
      (s : String) (i : Issue f) (is : List (Issue f))
      → has_severity s (insert_by code_before i is) ≡ has_severity s (i ∷ is)
  unfolding has_severity insert_by
  has_severity-insert_by s i [] = refl
  has_severity-insert_by s i (j ∷ js) = ground (arith, has_severity-insert_by s i js)

  has_severity-insert_each :
      (s : String) (is sorted : List (Issue f))
      → has_severity s (insert_each code_before is sorted)
        ≡ (has_severity s is || has_severity s sorted)
  unfolding has_severity insert_each
  has_severity-insert_each s [] sorted = refl
  has_severity-insert_each s (i ∷ is) sorted = ground (
    arith,
    has_severity-insert_each s is (insert_by code_before i sorted),
    has_severity-insert_by s i sorted,
  )

  module _ (go : Printing f) where
    has_severity-numbered :
        (s : String) (n : ℕ) (is : List (Issue f))
        → has_severity s (numbered go n is) ≡ has_severity s is
    unfolding has_severity numbered
    has_severity-numbered s n [] = refl
    has_severity-numbered s n (i ∷ is) = rw (has_severity-numbered s (suc n) is) refl

    -- The rule, if any, has the severity and is broken.
    unfoldable pub rule_broken : String → f.Carrier → Option (Constraint f) → Bool
    rule_broken severity value none = false
    rule_broken severity value (some rule) =
        str_eq rule.severity severity && not (range_contains rule.range value)

    abbrev pub is_broken :
        String → StairConfiguration f.Carrier → ConstraintSet f → Binding f → Bool
    is_broken severity cfg set b = rule_broken severity (b.value cfg) (active b.code set)

    unfoldable pub any_broken :
        String → StairConfiguration f.Carrier → ConstraintSet f → List (Binding f) → Bool
    any_broken severity cfg set [] = false
    any_broken severity cfg set (b ∷ bs) =
        is_broken severity cfg set b || any_broken severity cfg set bs

    severity-issue_of :
        (b : Binding f) (cfg : StairConfiguration f.Carrier) (rule : Constraint f)
        → (issue_of go b cfg rule).severity ≡ rule.severity
    unfolding advise
    severity-issue_of b cfg rule = elim (Option-cases rule.advice) [
      | inl e ↦ rw e refl
      | inr (a, e) ↦ rw e refl
    ]

    resolve-active :
        (code : String) (value : f.Carrier) (set : ConstraintSet f)
        → resolve code value set ≡ elim (active code set) [
          | none ↦ (none, true)
          | some c ↦ (some c, range_contains c.range value)
        ]
    unfolding resolve
    resolve-active code value set = refl

    if_or : (b c : Bool) → (if b then true else c) ≡ (b && not false || c)
    if_or true c = refl
    if_or false c = refl

    has_severity-add_issue :
        (s : String) (b : Binding f) (cfg : StairConfiguration f.Carrier) (set : ConstraintSet f)
        (rest : List (Issue f))
        → has_severity s (add_issue go b cfg (resolve b.code (b.value cfg) set) rest)
          ≡ (is_broken s cfg set b || has_severity s rest)
    unfolding has_severity rule_broken add_issue
    has_severity-add_issue s b cfg set rest = elim (Option-cases (active b.code set)) [
      | inl e ↦ rw (resolve-active b.code (b.value cfg) set, e) refl
      | inr (rule, e) ↦ elim (Bool-cases (range_contains rule.range (b.value cfg))) [
        | inl inside ↦ rw (resolve-active b.code (b.value cfg) set, e, inside) (ground arith)
        | inr outside ↦
            rw (resolve-active b.code (b.value cfg) set, e, outside, severity-issue_of b cfg rule)
              (if_or (str_eq rule.severity s) (has_severity s rest))
      ]
    ]

    has_severity-issues_of :
        (s : String) (bs : List (Binding f)) (cfg : StairConfiguration f.Carrier)
        (set : ConstraintSet f)
        → has_severity s (issues_of go bs cfg set) ≡ any_broken s cfg set bs
    unfolding has_severity issues_of any_broken
    has_severity-issues_of s [] cfg set = refl
    has_severity-issues_of s (b ∷ bs) cfg set =
        rw
          (
            has_severity-add_issue s b cfg set (issues_of go bs cfg set),
            has_severity-issues_of s bs cfg set,
          )
          refl

    or_none : (s : String) (b : Bool) → (b || has_severity {f = f} s []) ≡ b
    unfolding has_severity
    or_none s b = ground arith

    -- The severities of a result are those of the broken rules.
    pub has_severity-validate :
        (s : String) (cfg : StairConfiguration f.Carrier) (set : ConstraintSet f)
        → has_severity s (validate go cfg set).issues ≡ any_broken s cfg set (bindings go)
    unfolding validate sort_by
    has_severity-validate s cfg set =
        has_severity-numbered s 1 (sort_by code_before (issues_of go (bindings go) cfg set))
        ∙ has_severity-insert_each s (issues_of go (bindings go) cfg set) []
        ∙ or_none s (has_severity s (issues_of go (bindings go) cfg set))
        ∙ has_severity-issues_of s (bindings go) cfg set

    -- The active rule of a binding, if its severity is that of an error, holds of the staircase.
    abbrev pub Holds : StairConfiguration f.Carrier → ConstraintSet f → Binding f → Type 0
    Holds cfg set b =
        (rule : Constraint f)
        → active b.code set ≡ some rule
        → rule.severity ≡ "error"
        → range_contains rule.range (b.value cfg) ≡ true

    rule_broken-holds :
        (value : f.Carrier) (found : Option (Constraint f))
        → (rule_broken "error" value found ≡ false) ↔ (
            (rule : Constraint f)
            → found ≡ some rule
            → rule.severity ≡ "error"
            → range_contains rule.range value ≡ true)
    unfolding rule_broken
    rule_broken-holds value none = (λ _ rule e. absurd (ground (arith, e)), λ _. refl)
    rule_broken-holds value (some rule) = (
      λ h other e bad.
          let same : rule ≡ other = ground (arith, e) in
          let severe = (eq_iff rule.severity "error").1 (rw same bad) in
          rw (sym same) (ground (arith, rw severe at h)),
      λ holds. elim (Bool-cases (str_eq rule.severity "error")) [
        | inl e ↦ rw (holds rule refl ((eq_iff rule.severity "error").0 e)) (ground arith)
        | inr e ↦ rw e refl
      ],
    )

    any_broken-Holds :
        (cfg : StairConfiguration f.Carrier) (set : ConstraintSet f) (bs : List (Binding f))
        → (any_broken "error" cfg set bs ≡ false) ↔ All (Holds cfg set) bs
    unfolding any_broken
    any_broken-Holds cfg set [] = (λ _. tt, λ _. refl)
    any_broken-Holds cfg set (b ∷ bs) = (
      λ h. (
        (rule_broken-holds (b.value cfg) (active b.code set)).0 (ground arith),
        (any_broken-Holds cfg set bs).0 (ground arith),
      ),
      λ a.
          rw ((rule_broken-holds (b.value cfg) (active b.code set)).1 a.0)
            ((any_broken-Holds cfg set bs).1 a.1),
    )

    pub valid_lem :
        (cfg : StairConfiguration f.Carrier) (set : ConstraintSet f)
        → (validate go cfg set).valid ≡ not (validate go cfg set).blocking
    unfolding validate
    valid_lem cfg set = refl

    pub blocking_lem :
        (cfg : StairConfiguration f.Carrier) (set : ConstraintSet f)
        → (validate go cfg set).blocking ≡ any_broken "error" cfg set (bindings go)
    unfolding validate
    blocking_lem cfg set = has_severity-validate "error" cfg set

    pub validate-Holds :
        (cfg : StairConfiguration f.Carrier) (set : ConstraintSet f)
        → ((validate go cfg set).valid ≡ not (validate go cfg set).blocking)
          × (((validate go cfg set).valid ≡ true) ↔ All (Holds cfg set) (bindings go))
    validate-Holds cfg set = (
      valid_lem cfg set,
      (
        λ h.
            (any_broken-Holds cfg set (bindings go)).0
              (ground (arith, valid_lem cfg set, blocking_lem cfg set)),
        λ a. ground (
          arith,
          valid_lem cfg set,
          blocking_lem cfg set,
          (any_broken-Holds cfg set (bindings go)).1 a,
        ),
      ),
    )
