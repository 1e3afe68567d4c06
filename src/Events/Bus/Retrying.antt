-- ===== src/Events/Bus/Retrying.antt =====
-- What `DLQRetry` does.
use stair_platform.Prelude.{
  ℕ, zero, suc, ◌+◌, ◌≤◌, ◌<◌, ◌≡◌, ◌↔◌, inl, inr, Bool, true, false, none, some, List, [], ◌∷◌,
  arith, if◌then◌else◌, Bool-cases, length, pos_part,
}
use stair_platform.Events.DeadLetters.{DlqEntry, Dlq}
use stair_platform.Events.Bus.{Bus, Attempt, invoke_with_retry, retry_panics, dlq_retry}

module _ {H V E : Type 0} (attempts : H → ℕ → Attempt E) where
  retry_panics_step :
      (b : Bus H V) (stopped : ℕ → Bool) (i : ℕ) (e : DlqEntry V) (es : List (DlqEntry V))
      → 1 ≤ pos_part b.max_attempts
      → retry_panics attempts b stopped i (e ∷ es)
        ≡ (if stopped i then retry_panics attempts b stopped (i + 1) es else true)
  unfolding retry_panics invoke_with_retry
  retry_panics_step b stopped i e es one = ground arith

  retry_panics-turn :
      (b : Bus H V) (stopped : ℕ → Bool) (i : ℕ) (es : List (DlqEntry V))
      → 1 ≤ pos_part b.max_attempts
      → retry_panics attempts b stopped i es ≡ true
      → (j : ℕ) × (j < length es) × (stopped (i + j) ≡ false)
  unfolding retry_panics
  retry_panics-turn b stopped i [] one h = absurd (ground arith)
  retry_panics-turn b stopped i (e ∷ es) one h = elim (Bool-cases (stopped i)) [
    | inl on ↦
        let (j, l, s) =
          retry_panics-turn b stopped (i + 1) es one
            (ground (arith, retry_panics_step b stopped i e es one)) in
        let shift : i + suc j ≡ i + 1 + j = omega arith in (suc j, omega (arith, l), rw shift s)
    | inr off ↦ let here : i + 0 ≡ i = omega arith in (0, omega arith, rw here off)
  ]

  turn-retry_panics :
      (b : Bus H V) (stopped : ℕ → Bool) (i j : ℕ) (es : List (DlqEntry V))
      → 1 ≤ pos_part b.max_attempts
      → j < length es
      → stopped (i + j) ≡ false
      → retry_panics attempts b stopped i es ≡ true
  turn-retry_panics b stopped i j [] one l s = absurd (omega arith)
  turn-retry_panics b stopped i zero (e ∷ es) one l s =
      let here : i + 0 ≡ i = omega arith in
      let off : stopped i ≡ false = rw here at s in
      ground (arith, retry_panics_step b stopped i e es one)
  turn-retry_panics b stopped i (suc j) (e ∷ es) one l s =
      let shift : i + suc j ≡ i + 1 + j = omega arith in
      let later : stopped (i + 1 + j) ≡ false = rw shift at s in
      ground (
        arith,
        retry_panics_step b stopped i e es one,
        turn-retry_panics b stopped (i + 1) j es one (omega (arith, l)) later,
      )

  panics-dlq_retry :
      (stopped : ℕ → Bool) (b : Bus H V) (q : Dlq V)
      → b.dlq ≡ some q
      → retry_panics attempts b stopped 0 q.entries ≡ true
      → dlq_retry attempts stopped b ≡ none
  unfolding dlq_retry
  panics-dlq_retry stopped b q d h = ground arith

  dlq_retry-panics :
      (stopped : ℕ → Bool) (b : Bus H V) (q : Dlq V)
      → b.dlq ≡ some q
      → dlq_retry attempts stopped b ≡ none
      → retry_panics attempts b stopped 0 q.entries ≡ true
  unfolding dlq_retry
  dlq_retry-panics stopped b q d h = ground arith

  -- With at least one attempt, DLQRetry panics exactly when there is a dead letter before whose turn
  -- the context has not ended.
  pub dlq_retry_lem :
      (stopped : ℕ → Bool) (b : Bus H V) (q : Dlq V)
      → b.dlq ≡ some q
      → 1 ≤ pos_part b.max_attempts
      → (dlq_retry attempts stopped b ≡ none)
        ↔ ((j : ℕ) × (j < length q.entries) × (stopped j ≡ false))
  dlq_retry_lem stopped b q d one = (
    λ h.
        let (j, l, s) =
          retry_panics-turn b stopped 0 q.entries one (dlq_retry-panics stopped b q d h) in
        let at_zero : 0 + j ≡ j = omega arith in (j, l, rw at_zero at s),
    λ (j, l, s).
        let at_zero : 0 + j ≡ j = omega arith in
        panics-dlq_retry stopped b q d
          (turn-retry_panics b stopped 0 j q.entries one l (rw at_zero s)),
  )
