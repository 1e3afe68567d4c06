-- ===== src/Events/DeadLetters/Bounds.antt =====
-- The size of the dead letter queue.
use stair_platform.Prelude.{
  ℕ, ◌+◌, ◌-◌, ◌≤◌, ◌<◌, ◌≡◌, refl, inl, inr, Bool, true, false, some, List, [], ◌∷◌, ◌++◌, arith,
  leb, Bool-cases, length, length-append,
}
use stair_platform.Events.DeadLetters.{
  DlqEntry, Dlq, unsnoc, tail, push, pop, retry_entries, retry_all, write_back,
}

length-tail : {A : Type 0} (xs : List A) → length (tail xs) ≡ length xs - 1
length-tail [] = refl
length-tail (x ∷ xs) = omega arith

unsnoc-append : {A : Type 0} (xs : List A) (y : A) → unsnoc (xs ++ y ∷ []) ≡ some (xs, y)
unfolding unsnoc
unsnoc-append [] y = refl
unsnoc-append (x ∷ xs) y = rw (unsnoc-append xs y) refl

pop_snoc :
    {E : Type 0} (xs : List (DlqEntry E)) (entry : DlqEntry E) (capacity : ℕ)
    → pop (record { entries = xs ++ entry ∷ []; capacity = capacity })
      ≡ (record { entries = xs; capacity = capacity }, some entry)
unfolding pop
pop_snoc xs entry capacity = rw (unsnoc-append xs entry, pop) refl

push_full :
    {E : Type 0} (entry : DlqEntry E) (q : Dlq E)
    → leb q.capacity (length q.entries) ≡ true
    → push entry q ≡ record q { entries = tail q.entries ++ entry ∷ [] }
unfolding push
push_full entry q h = rw h refl

push_room :
    {E : Type 0} (entry : DlqEntry E) (q : Dlq E)
    → leb q.capacity (length q.entries) ≡ false
    → push entry q ≡ record q { entries = q.entries ++ entry ∷ [] }
unfolding push
push_room entry q h = rw h refl

-- What is pushed is popped next. A queue of positive capacity that is within it stays so: a full
-- one loses its oldest entry, and only a full one loses any.
pub pop-push :
    {E : Type 0} (entry : DlqEntry E) (q : Dlq E)
    → 1 ≤ q.capacity
    → length q.entries ≤ q.capacity
    → ((pop (push entry q)).1 ≡ some entry)
      × (length (push entry q).entries ≤ q.capacity)
      × (length q.entries < q.capacity → (pop (push entry q)).0 ≡ q)
      × (length q.entries ≡ q.capacity → (pop (push entry q)).0.entries ≡ tail q.entries)
pop-push entry q one le = elim (Bool-cases (leb q.capacity (length q.entries))) [
  | inl h ↦
      rw (push_full entry q h, pop_snoc (tail q.entries) entry q.capacity)
        (
          refl,
          omega (arith, length-append (tail q.entries) (entry ∷ []), length-tail q.entries),
          λ l. ground arith,
          λ _. refl,
        )
  | inr h ↦
      rw (push_room entry q h, pop_snoc q.entries entry q.capacity)
        (refl, ground (arith, length-append q.entries (entry ∷ [])), λ _. refl, λ e. ground arith)
]

retry_entries-length :
    {E : Type 0} (stopped : ℕ → Bool) (attempt : DlqEntry E → Bool) (i : ℕ)
    (entries : List (DlqEntry E))
    → length (retry_entries stopped attempt i entries).0
        + (retry_entries stopped attempt i entries).1
      ≡ length entries
unfolding retry_entries
retry_entries-length stopped attempt i [] = refl
retry_entries-length stopped attempt i (entry ∷ entries) =
    ground (arith, retry_entries-length stopped attempt (i + 1) entries)

-- `RetryAll` loses no entry: each one is counted as a success or remains.
pub retry_all-length :
    {E : Type 0} (stopped : ℕ → Bool) (attempt : DlqEntry E → Bool) (q : Dlq E)
    → length (retry_all stopped attempt q).0.entries + (retry_all stopped attempt q).1
      ≡ length q.entries
unfolding retry_all write_back
retry_all-length stopped attempt q = retry_entries-length stopped attempt 0 q.entries
