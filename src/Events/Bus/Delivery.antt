-- ===== src/Events/Bus/Delivery.antt =====
-- What becomes of an event that is published, and of the dead letters that are retried.
use stair_platform.Prelude.{
  ℕ, zero, suc, ◌+◌, ◌≤◌, ◌<◌, String, ◌≡◌, refl, ◌↔◌, inl, inr, true, false, Option, none, some,
  List, [], ◌∷◌, ◌++◌, arith, Option-cases, length, length-append, All, ℤ, pos_part, is_some,
}
use mathlib.Core.List.{append-nil, append_assoc}
use stair_platform.Events.DeadLetters.{DlqEntry, Dlq, push}
use stair_platform.Events.Bus.{
  HandlerEntry, Bus, Published, Attempt, InvokeError, returned, recipients, invoke_loop,
  invoke_with_retry, dead_letter, deliver, publish, keep_letter,
}

shift : (k j : ℕ) → k + suc j ≡ k + 1 + j
shift k j = omega arith

zero_plus : (j : ℕ) → 0 + j ≡ j
zero_plus j = omega arith

right_zero : (k : ℕ) → k + 0 ≡ k
right_zero k = omega arith

module _ {H E : Type 0} (attempts : H → ℕ → Attempt E) where
  -- The context does not end.
  abbrev pub IsQuiet : H → Type 0
  IsQuiet h =
      (k : ℕ) → ((attempts h k).ended_in_wait ≡ false) × ((attempts h k).ended_after ≡ false)

  invoke_loop-calls : (h : H) (k n : ℕ) (last : Option E) → (invoke_loop attempts h k n last).1 ≤ n
  unfolding invoke_loop
  invoke_loop-calls h k zero last = omega arith
  invoke_loop-calls h k (suc n) last =
      ground (arith, invoke_loop-calls h (k + 1) n (attempts h k).result)

  success-invoke_loop :
      (h : H) (k n j : ℕ) (last : Option E)
      → IsQuiet h
      → j < n
      → (attempts h (k + j)).result ≡ none
      → (invoke_loop attempts h k n last).0 ≡ none
  unfolding invoke_loop
  success-invoke_loop h k zero j last quiet l s = absurd (omega arith)
  success-invoke_loop h k (suc n) zero last quiet l s =
      let now : (attempts h k).result ≡ none = rw (right_zero k) at s in
      ground (arith, quiet k, now)
  success-invoke_loop h k (suc n) (suc j) last quiet l s =
      let later : (attempts h (k + 1 + j)).result ≡ none = rw (shift k j) at s in
      elim (Option-cases (attempts h k).result) [
        | inl fine ↦ ground (arith, quiet k)
        | inr (e, failed) ↦ ground (
          arith,
          quiet k,
          success-invoke_loop h (k + 1) n j (attempts h k).result quiet (omega (arith, l)) later,
        )
      ]

  invoke_loop-success :
      (h : H) (k n : ℕ) (last : Option E)
      → (invoke_loop attempts h k n last).0 ≡ none
      → (j : ℕ) × (j < n) × ((attempts h (k + j)).result ≡ none)
  unfolding invoke_loop
  invoke_loop-success h k zero last r = absurd (ground arith)
  invoke_loop-success h k (suc n) last r = elim (Option-cases (attempts h k).result) [
    | inl fine ↦ (0, omega arith, rw (right_zero k) fine)
    | inr (e, failed) ↦
        let (j, l, s) = invoke_loop-success h (k + 1) n (attempts h k).result (ground arith) in
        (suc j, omega (arith, l), rw (shift k j) s)
  ]

  returns :
      (max_attempts : ℤ) (entry : HandlerEntry H)
      → is_some entry.handler ≡ true
      → (r : Option (InvokeError E)) × (invoke_with_retry attempts max_attempts entry ≡ returned r)
  unfolding invoke_with_retry
  returns max_attempts entry h = elim (Option-cases entry.handler) [
    | inl missing ↦ absurd (ground arith)
    | inr (f, there) ↦ ((invoke_loop attempts f 0 (pos_part max_attempts) none).0, rw there refl)
  ]

  -- Where the context does not end, the handler of a subscriber is called at most as often as there
  -- are attempts, and there is no error exactly when one of the attempts succeeds.
  pub invoke_loop_lem :
      (h : H) (n : ℕ)
      → IsQuiet h
      → ((invoke_loop attempts h 0 n none).1 ≤ n)
        × (((invoke_loop attempts h 0 n none).0 ≡ none)
            ↔ ((j : ℕ) × (j < n) × ((attempts h j).result ≡ none)))
  invoke_loop_lem h n quiet = (
    invoke_loop-calls h 0 n none,
    (
      λ r. let (j, l, s) = invoke_loop-success h 0 n none r in (j, l, rw (zero_plus j) at s),
      λ (j, l, s). success-invoke_loop h 0 n j none quiet l (rw (zero_plus j) s),
    ),
  )

module _ {H V E : Type 0} (attempts : H → ℕ → Attempt E) (text : String → InvokeError E → String)
    (now : ℕ) where
  -- The letters of the recipients whose calls fail.
  unfoldable pub letters : ℤ → Published V → List (HandlerEntry H) → List (DlqEntry V)
  letters max_attempts p [] = []
  letters max_attempts p (entry ∷ entries) = elim (invoke_with_retry attempts max_attempts entry) [
    | returned (some e) ↦ dead_letter attempts text now p entry e ∷ letters max_attempts p entries
    | _ ↦ letters max_attempts p entries
  ]

  unfoldable pub push_all : List (DlqEntry V) → Dlq V → Dlq V
  push_all [] q = q
  push_all (l ∷ ls) q = push_all ls (push l q)

  keep_letter_lem :
      (b : Bus H V) (q : Dlq V) (l : DlqEntry V)
      → b.dlq ≡ some q
      → keep_letter attempts text now l b ≡ record b { dlq = some (push l q) }
  unfolding keep_letter
  keep_letter_lem b q l d = ground arith

  deliver-push_all :
      (b : Bus H V) (p : Published V) (q : Dlq V) (entries : List (HandlerEntry H))
      → All (λ e. is_some e.handler ≡ true) entries
      → b.dlq ≡ some q
      → deliver attempts text now b p entries
        ≡ some (record b { dlq = some (push_all (letters b.max_attempts p entries) q) })
  unfolding deliver letters push_all
  deliver-push_all b p q [] a d = ground arith
  deliver-push_all b p q (entry ∷ entries) a d =
      let (r, ends) = returns attempts b.max_attempts entry a.0 in
      elim (Option-cases r) [
        | inl fine ↦ ground (arith, deliver-push_all b p q entries a.1 d)
        | inr (e, failed) ↦
            let letter = dead_letter attempts text now p entry e in
            ground (
              arith,
              keep_letter_lem b q letter d,
              deliver-push_all (record b { dlq = some (push letter q) }) p (push letter q) entries
                  a.1 refl,
            )
      ]

  push_room :
      (x : DlqEntry V) (q : Dlq V)
      → length q.entries < q.capacity
      → push x q ≡ record q { entries = q.entries ++ x ∷ [] }
  unfolding push
  push_room x q l = ground arith

  push_all_room :
      (ls : List (DlqEntry V)) (q : Dlq V)
      → length q.entries + length ls ≤ q.capacity
      → push_all ls q ≡ record q { entries = q.entries ++ ls }
  unfolding push_all
  push_all_room [] q l = rw (append-nil q.entries) refl
  push_all_room (x ∷ ls) q l =
      rw
        (
          push_room x q (omega (arith, l)),
          push_all_room ls (record q { entries = q.entries ++ x ∷ [] })
              (omega (arith, l, length-append q.entries (x ∷ []))),
          append_assoc,
        )
        refl

  -- On an open bus whose queue has room and whose recipients have handlers, Publish returns no error,
  -- and the queue gets one letter for each recipient whose calls fail, in the order of delivery;
  -- nothing else changes.
  pub publish-letters :
      (p : Published V) (b : Bus H V) (q : Dlq V)
      → b.closed ≡ false
      → b.dlq ≡ some q
      → All (λ e. is_some e.handler ≡ true) (recipients p.event_type b)
      → length q.entries + length (letters b.max_attempts p (recipients p.event_type b))
        ≤ q.capacity
      → publish attempts text now p b
        ≡ some (
          record b {
            dlq = some (record q {
              entries = q.entries ++ letters b.max_attempts p (recipients p.event_type b);
            });
          },
          false,
        )
  unfolding publish
  publish-letters p b q open_bus d a room = ground (
    arith,
    open_bus,
    deliver-push_all b p q (recipients p.event_type b) a d,
    push_all_room (letters b.max_attempts p (recipients p.event_type b)) q room,
  )
