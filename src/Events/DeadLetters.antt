-- ===== src/Events/DeadLetters.antt =====
-- internal/infrastructure/events/dlq.go: the dead letter queue. Its mutex makes each method one
-- step. `RetryAll` copies the entries and writes back what is left in a second step; `attempt`
-- tells what `invokeWithRetry` of the bus returns for an entry, `true` for no error, and `stopped`
-- whether the context has ended before the entry of a position.
pub mod Bounds
use stair_platform.Prelude.{
  ℕ, zero, suc, ◌+◌, String, Bool, Option, none, some, List, [], ◌∷◌, ◌++◌, leb, if◌then◌else◌,
  length,
}

pub record DlqEntry (E : Type 0) : Type 0 where
  pub event : E
  pub handler_id : String
  pub error : String
  pub correlation_id : String
  pub timestamp : ℕ
  pub retry_count : ℕ

pub record Dlq (E : Type 0) : Type 0 where
  pub entries : List (DlqEntry E)
  pub capacity : ℕ

unfoldable pub new_dlq : {E : Type 0} → ℕ → Dlq E
new_dlq zero = record { entries = []; capacity = 1000 }
new_dlq (suc n) = record { entries = []; capacity = suc n }

-- `xs[1:]`
abbrev pub tail : {A : Type 0} → List A → List A
tail [] = []
tail (_ ∷ xs) = xs

-- The last element, and the list without it.
unfoldable pub unsnoc : {A : Type 0} → List A → Option (List A × A)
unsnoc [] = none
unsnoc (x ∷ xs) = elim (unsnoc xs) [ none ↦ some ([], x) | some (ys, y) ↦ some (x ∷ ys, y) ]

module _ {E : Type 0} where
  unfoldable pub push : DlqEntry E → Dlq E → Dlq E
  push entry q =
      let kept = if leb q.capacity (length q.entries) then tail q.entries else q.entries in
      record q { entries = kept ++ entry ∷ [] }

  -- The newest entry.
  unfoldable pub pop : Dlq E → Dlq E × Option (DlqEntry E)
  unfolding unsnoc
  pop q = elim (unsnoc q.entries) [
    | none ↦ (q, none)
    | some (rest, entry) ↦ (record q { entries = rest }, some entry)
  ]

  unfoldable pub drain : Dlq E → Dlq E
  drain q = record q { entries = [] }

  -- The loop of `RetryAll`: the entries that remain, and how many succeeded.
  unfoldable pub retry_entries :
      (ℕ → Bool) → (DlqEntry E → Bool) → ℕ → List (DlqEntry E) → List (DlqEntry E) × ℕ
  retry_entries stopped attempt i [] = ([], 0)
  retry_entries stopped attempt i (entry ∷ entries) =
      let (remaining, successes) = retry_entries stopped attempt (i + 1) entries in
      if stopped i
      then (entry ∷ remaining, successes)
      else if attempt entry
      then (remaining, successes + 1)
      else (record entry { retry_count = entry.retry_count + 1 } ∷ remaining, successes)

  -- The second critical section of `RetryAll`, on the queue as it is by then.
  unfoldable pub write_back : List (DlqEntry E) → Dlq E → Dlq E
  write_back remaining q = record q { entries = remaining }

  -- `RetryAll` without another call in between.
  unfoldable pub retry_all : (ℕ → Bool) → (DlqEntry E → Bool) → Dlq E → Dlq E × ℕ
  unfolding retry_entries write_back
  retry_all stopped attempt q =
      let (remaining, successes) = retry_entries stopped attempt 0 q.entries in
      (write_back remaining q, successes)
