-- ===== src/Documents/Lifecycle.antt =====
-- The states of a document: draft, rendered, archived.
use stair_platform.Prelude.{
  ℕ, ◌+◌, String, ◌≡◌, refl, ap, ◌↔◌, ◌⊎◌, inl, inr, true, false, Option, none, some, List, [], ◌∷◌,
  arith, str_eq, eq_iff, if◌then◌else◌, is_some,
}
use stair_platform.Documents.{
  Document, DocumentError, transition_to, can_transition_to, status_valid, draft, rendered,
  archived, invalid_target, cannot_transition,
}

-- How far a state is.
unfoldable pub rank : String → ℕ
rank s = if str_eq s draft then 0 else if str_eq s rendered then 1 else 2

apart : (s a b : String) → str_eq a b ≡ false → str_eq s a ≡ true → str_eq s b ≡ false
apart s a b d h = ground (arith, eq_iff s a, eq_iff s b, eq_iff a b)

module _ {D : Type 0} where
  -- The targets, with the times of the calls: the document, and how many transitions succeed.
  unfoldable pub transitions : List (String × ℕ) → Document D → Document D × ℕ
  transitions [] d = (d, 0)
  transitions ((target, now) ∷ targets) d =
      let (after, error) = transition_to target now d in
      let (last, n) = transitions targets after in (last, if is_some error then n else n + 1)

  transition_to_lem :
      (target : String) (now : ℕ) (d : Document D)
      → status_valid d.status ≡ true
      → ((transition_to target now d).1 ≡ none)
        ↔ ((status_valid target ≡ true) × (rank target ≡ rank d.status + 1))
  unfolding transition_to can_transition_to status_valid rank
  transition_to_lem target now d v = ground (
    arith,
    apart target rendered archived refl,
    apart target draft rendered refl,
    apart target draft archived refl,
    apart d.status draft rendered refl,
    apart d.status rendered archived refl,
  )

  transition_to_kept :
      (target : String) (now : ℕ) (d : Document D)
      → (transition_to target now d ≡ (d, some invalid_target))
        ⊎ ((transition_to target now d ≡ (d, some cannot_transition))
            ⊎ (transition_to target now d ≡ (
              record d { status = target; metadata = record d.metadata { updated_at = now } },
              none,
            )))
  unfolding transition_to
  transition_to_kept target now d = ground arith

  -- From a known state, each transition of a run that succeeds leads to the next state, draft to
  -- rendered to archived, so a run has as many successes as the document moves on; its id and its
  -- content stay.
  pub transitions-rank :
      (targets : List (String × ℕ)) (d : Document D)
      → status_valid d.status ≡ true
      → (rank (transitions targets d).0.status ≡ rank d.status + (transitions targets d).1)
        × (status_valid (transitions targets d).0.status ≡ true)
        × ((transitions targets d).0.id ≡ d.id)
        × ((transitions targets d).0.content ≡ d.content)
  unfolding transitions
  transitions-rank [] d v = (omega arith, v, refl, refl)
  transitions-rank ((target, now) ∷ targets) d v = elim (transition_to_kept target now d) [
    | inl refused ↦ ground (arith, transitions-rank targets d)
    | inr (inl refused) ↦ ground (arith, transitions-rank targets d)
    | inr (inr moved) ↦
        let next : Document D = record d {
          status = target;
          metadata = record d.metadata { updated_at = now };
        } in
        let (valid, up) =
          (transition_to_lem target now d v).0
            (ap (λ (w : Document D × Option DocumentError). w.1) moved) in
        let (ranks, known, id, content) = transitions-rank targets next valid in
        rw moved (omega (arith, ranks, up), known, id, content)
  ]
