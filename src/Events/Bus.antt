-- ===== src/Events/Bus.antt =====
-- internal/infrastructure/events/bus.go and retry.go: the event bus. Its mutex makes Subscribe,
-- Unsubscribe and the reading of the subscribers one step each; handlers run outside of it. A
-- handler is nil or a function `H`, which stands for its code: `attempts` tells what happens at
-- each attempt to call it. `E` is the type of errors and `V` that of events.
pub mod Priority
pub mod Subscriptions
pub mod Delivery
pub mod Retrying
mod Examples
use stair_platform.Prelude.{
  ℕ, zero, suc, ◌+◌, ◌*◌, String, Bool, true, false, not, ◌&&◌, Option, none, some, List, [], ◌∷◌,
  ◌++◌, str_eq, ◌==◌, if◌then◌else◌, length, lookup, insert, ℤ, pos, pos_part, ltb_ℤ, is_some,
}
use mathlib.Core.List.{reverse}
use stair_platform.Events.DeadLetters.{DlqEntry, Dlq, push, retry_all}

pub record HandlerEntry (H : Type 0) : Type 0 where
  pub id : String
  pub handler : Option H
  pub priority : ℤ

-- `dlq` is nil without a dead letter queue.
pub record Bus (H V : Type 0) : Type 0 where
  pub handlers : List (String × List (HandlerEntry H))
  pub dlq : Option (Dlq V)
  pub max_attempts : ℤ
  pub closed : Bool

-- What an event tells of itself.
pub record Published (V : Type 0) : Type 0 where
  pub event : V
  pub event_type : String
  pub meta_id : String
  pub meta_correlation_id : String

-- One attempt: whether the context ends in the wait before it, what the handler returns, and
-- whether the context has ended after it.
pub record Attempt (E : Type 0) : Type 0 where
  pub ended_in_wait : Bool
  pub result : Option E
  pub ended_after : Bool

-- The errors of `invokeWithRetry`; the last one wraps the error of the last attempt, if any.
pub data InvokeError (E : Type 0) : Type 0 where
  context_error : InvokeError E
  failed_after : Option E → InvokeError E

-- A call of a nil handler panics.
pub data Invoked (E : Type 0) : Type 0 where
  panicked : Invoked E
  returned : Option (InvokeError E) → Invoked E

-- `b.handlers[typ]`, where a missing entry is nil.
unfoldable pub subscribers :
    {H : Type 0} → String → List (String × List (HandlerEntry H)) → List (HandlerEntry H)
subscribers typ m = elim (lookup typ m) [ none ↦ [] | some entries ↦ entries ]

-- The new entry moves left past those of a greater priority; the list is reversed.
unfoldable pub settle :
    {H : Type 0} → HandlerEntry H → List (HandlerEntry H) → List (HandlerEntry H)
settle entry [] = entry ∷ []
settle entry (before ∷ r) =
    let moved = settle entry r in
    if ltb_ℤ entry.priority before.priority then before ∷ moved else entry ∷ before ∷ r

unfoldable pub add_entry :
    {H : Type 0} → HandlerEntry H → List (HandlerEntry H) → List (HandlerEntry H)
unfolding settle
add_entry entry entries = reverse (settle entry (reverse entries))

-- `append(entries[:i], entries[i+1:]...)` at the first entry of the id.
unfoldable pub cut : {H : Type 0} → String → List (HandlerEntry H) → Option (List (HandlerEntry H))
cut id [] = none
cut id (e ∷ es) =
    let rest = cut id es in
    if str_eq e.id id then some es else elim rest [ none ↦ none | some kept ↦ some (e ∷ kept) ]

module _ {H V : Type 0} where
  -- `NewBus`, with what the options set; the default is 3 attempts and no queue.
  unfoldable pub new_bus : Option (Dlq V) → ℤ → Bus H V
  new_bus dlq max_attempts = record {
    handlers = [];
    dlq = dlq;
    max_attempts = max_attempts;
    closed = false;
  }

  -- `id` is the new subscription's.
  unfoldable pub subscribe : String → String → Option H → ℤ → Bus H V → Bus H V
  unfolding add_entry subscribers
  subscribe id typ handler priority b =
      let entry : HandlerEntry H = record { id = id; handler = handler; priority = priority } in
      record b { handlers = insert typ (add_entry entry (subscribers typ b.handlers)) b.handlers }

  unfoldable pub unsubscribe : String → String → Bus H V → Bus H V × Bool
  unfolding cut subscribers
  unsubscribe typ id b = elim (cut id (subscribers typ b.handlers)) [
    | none ↦ (b, false)
    | some kept ↦ (record b { handlers = insert typ kept b.handlers }, true)
  ]

  unfoldable pub close : Bus H V → Bus H V
  close b = record b { closed = true }

  unfoldable pub handler_count : String → Bus H V → ℕ
  unfolding subscribers
  handler_count typ b = length (subscribers typ b.handlers)

  unfoldable pub dlq_count : Bus H V → ℕ
  dlq_count b = elim b.dlq [ none ↦ 0 | some q ↦ length q.entries ]

  -- Those that an event goes to.
  unfoldable pub recipients : String → Bus H V → List (HandlerEntry H)
  unfolding subscribers
  recipients typ b = subscribers typ b.handlers ++ subscribers "*" b.handlers

module _ {H E : Type 0} (attempts : H → ℕ → Attempt E) where
  -- The loop of `invokeWithRetry` with the attempts left and the last error, and how often the
  -- handler is called.
  unfoldable pub invoke_loop : H → ℕ → ℕ → Option E → Option (InvokeError E) × ℕ
  invoke_loop h attempt zero last = (some (failed_after last), 0)
  invoke_loop h attempt (suc n) last =
      let a = attempts h attempt in
      let (later, calls) = invoke_loop h (attempt + 1) n a.result in
      if not (attempt == 0) && a.ended_in_wait then (some context_error, 0) else elim a.result [
        | none ↦ (none, 1)
        | some e ↦ if a.ended_after then (some context_error, 1) else (later, calls + 1)
      ]

  unfoldable pub invoke_with_retry : ℤ → HandlerEntry H → Invoked E
  unfolding invoke_loop
  invoke_with_retry max_attempts entry =
      let rounds = pos_part max_attempts in
      elim entry.handler [
        | none ↦ if rounds == 0 then returned (some (failed_after none)) else panicked
        | some h ↦ returned (invoke_loop h 0 rounds none).0
      ]

module _ {H V E : Type 0} (attempts : H → ℕ → Attempt E) where
  -- `Error` of an entry is the text of the error, which `text` gives.
  module _ (text : String → InvokeError E → String) (now : ℕ) where
    unfoldable pub dead_letter : Published V → HandlerEntry H → InvokeError E → DlqEntry V
    dead_letter p entry e = record {
      event = p.event;
      handler_id = entry.id;
      error = text entry.id e;
      correlation_id = if str_eq p.meta_correlation_id "" then p.meta_id else p.meta_correlation_id;
      timestamp = now;
      retry_count = 0;
    }

    -- `b.dlq.Push`, where there is a queue.
    unfoldable pub keep_letter : DlqEntry V → Bus H V → Bus H V
    unfolding push
    keep_letter letter b = elim b.dlq [
      | none ↦ b
      | some q ↦ record b { dlq = some (push letter q) }
    ]

    -- The loop over the recipients; none if one of them panics.
    unfoldable pub deliver : Bus H V → Published V → List (HandlerEntry H) → Option (Bus H V)
    unfolding dead_letter invoke_with_retry keep_letter
    deliver b p [] = some b
    deliver b p (entry ∷ entries) = elim (invoke_with_retry attempts b.max_attempts entry) [
      | panicked ↦ none
      | returned none ↦ deliver b p entries
      | returned (some e) ↦ deliver (keep_letter (dead_letter p entry e) b) p entries
    ]

    -- The bus, and whether an error is returned.
    unfoldable pub publish : Published V → Bus H V → Option (Bus H V × Bool)
    unfolding deliver recipients
    publish p b =
        if b.closed then some (b, true) else elim (deliver b p (recipients p.event_type b)) [
          | none ↦ none
          | some after ↦ some (after, false)
        ]

  -- Whether `RetryAll` comes to a call that panics: it gives `invokeWithRetry` an entry whose
  -- handler is nil.
  unfoldable pub retry_panics : Bus H V → (ℕ → Bool) → ℕ → List (DlqEntry V) → Bool
  unfolding invoke_with_retry
  retry_panics b stopped i [] = false
  retry_panics b stopped i (letter ∷ letters) =
      let later = retry_panics b stopped (i + 1) letters in
      if stopped i
      then later
      else elim (invoke_with_retry attempts b.max_attempts
          (record { id = letter.handler_id; handler = none; priority = pos 0 })) [
            | panicked ↦ true
            | returned r ↦ later
          ]

  -- `DLQRetry`, with how many succeeded; none if it panics.
  unfoldable pub dlq_retry : (ℕ → Bool) → Bus H V → Option (Bus H V × ℕ)
  unfolding retry_panics invoke_with_retry retry_all
  dlq_retry stopped b = elim b.dlq [
    | none ↦ some (b, 0)
    | some q ↦
        if retry_panics b stopped 0 q.entries
        then none
        else let succeeds : DlqEntry V → Bool = λ letter.
          elim (invoke_with_retry attempts b.max_attempts
            (record { id = letter.handler_id; handler = none; priority = pos 0 })) [
              | panicked ↦ false
              | returned r ↦ not (is_some r)
            ] in
          let (kept, successes) = retry_all stopped succeeds q in
          some (record b { dlq = some kept }, successes)
  ]
