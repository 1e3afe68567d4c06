-- ===== src/Engineering/Parameter/Lifecycle.antt =====
-- The life of a parameter over any sequence of its methods.
use stair_platform.Prelude.{◌≡◌, refl, ◌≢◌, ◌↔◌, Option, none, some, List, [], ◌∷◌, arith, eq_iff}
use stair_platform.Engineering.Parameter.{
  created, applied, Parameter, validate, calculate, apply, modify, recalculate, archive,
}

pub data Op (V : Type 0) : Type 0 where
  op_validate op_apply op_archive : Op V
  op_calculate op_modify op_recalculate : Option V → Op V

module _ {V : Type 0} where
  unfoldable pub step : Op V → Parameter V → Parameter V
  step op_validate p = (validate p).0
  step op_apply p = (apply p).0
  step op_archive p = archive p
  step (op_calculate v) p = (calculate v p).0
  step (op_modify v) p = (modify v p).0
  step (op_recalculate v) p = recalculate v p

  unfoldable pub run : List (Op V) → Parameter V → Parameter V
  run [] p = p
  run (op ∷ ops) p = run ops (step op p)

  abbrev pub SameIdentity : Parameter V → Parameter V → Type 0
  SameIdentity p q =
      (p.id ≡ q.id)
      × (p.name ≡ q.name)
      × (p.unit ≡ q.unit)
      × (p.source ≡ q.source)
      × (p.formula ≡ q.formula)
      × (p.depends_on ≡ q.depends_on)

  step-SameIdentity : (op : Op V) (p : Parameter V) → SameIdentity p (step op p)
  unfolding step validate apply archive calculate modify recalculate
  step-SameIdentity op_validate p = ground arith
  step-SameIdentity op_apply p = ground arith
  step-SameIdentity op_archive p = ground arith
  step-SameIdentity (op_calculate v) p = ground arith
  step-SameIdentity (op_modify v) p = ground arith
  step-SameIdentity (op_recalculate v) p = ground arith

  -- Over any sequence of the methods, successful or not, a parameter keeps its id, name, unit,
  -- source, formula and dependencies.
  pub run-SameIdentity : (ops : List (Op V)) (p : Parameter V) → SameIdentity p (run ops p)
  unfolding run
  run-SameIdentity [] p = (refl, refl, refl, refl, refl, refl)
  run-SameIdentity (op ∷ ops) p =
      ground (arith, step-SameIdentity op p, run-SameIdentity ops (step op p))

abbrev pub IsComplete : {V : Type 0} → Parameter V → Type 0
IsComplete {V} p = (p.id ≢ "") × (p.name ≢ "") × (p.unit ≢ "") × ((v : V) × (p.value ≡ some v))

module _ {V : Type 0} where
  -- `Apply` on a parameter in the state created succeeds exactly when its id, name, unit and value
  -- are there, and then leaves it applied; when it fails it leaves the parameter as it was.
  pub apply_created :
      (p : Parameter V)
      → p.state ≡ created
      → (((apply p).1 ≡ none) ↔ IsComplete p)
        × (((apply p).1 ≡ none) → (apply p).0.state ≡ applied)
        × (((apply p).1 ≢ none) → (apply p).0 ≡ p)
  unfolding apply
  apply_created p h = (
    (
      λ e. (
        ground (arith, eq_iff p.id "", eq_iff p.name "", eq_iff p.unit ""),
        ground (arith, eq_iff p.id "", eq_iff p.name "", eq_iff p.unit ""),
        ground (arith, eq_iff p.id "", eq_iff p.name "", eq_iff p.unit ""),
        ground (arith, eq_iff p.id "", eq_iff p.name "", eq_iff p.unit ""),
      ),
      λ c. ground (arith, eq_iff p.id "", eq_iff p.name "", eq_iff p.unit "", c),
    ),
    λ e. ground (arith, eq_iff p.id "", eq_iff p.name "", eq_iff p.unit ""),
    λ n. ground (arith, eq_iff p.id "", eq_iff p.name "", eq_iff p.unit ""),
  )
