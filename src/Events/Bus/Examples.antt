-- ===== src/Events/Bus/Examples.antt =====
-- A bus with three handlers: 0 succeeds, 1 fails, and 2 succeeds at its second attempt.
use stair_platform.Prelude.{
  ℕ, zero, suc, ◌+◌, ◌≤◌, ◌<◌, String, ◌≡◌, refl, ◌↔◌, true, false, ◌&&◌, Option, none, some, List,
  [], ◌∷◌, ◌++◌, arith, str_eq, if◌then◌else◌, length, All, lookup, ℤ, pos, eq_ℤ, is_some,
}
use stair_platform.Events.DeadLetters.{DlqEntry, Dlq}
use stair_platform.Events.Bus.{
  HandlerEntry, Bus, Published, Attempt, InvokeError, invoke_loop, invoke_with_retry, dlq_retry,
  subscribe, new_bus, subscribers, recipients, publish,
}
use stair_platform.Events.Bus.Priority.{IsSorted, of_priority}
use stair_platform.Events.Bus.Subscriptions.{Call, subscribing, unsubscribing, run, run-IsSorted}
use stair_platform.Events.Bus.Delivery.{letters, publish-letters, invoke_loop_lem}
use stair_platform.Events.Bus.Retrying.{dlq_retry_lem}

abbrev result : ℕ → ℕ → Option ℕ
result zero k = none
result (suc zero) k = some 4
result (suc (suc h)) zero = some 6
result (suc (suc h)) (suc k) = none

abbrev attempts : ℕ → ℕ → Attempt ℕ
attempts h k = record { ended_in_wait = false; result = result h k; ended_after = false }

abbrev second : String → ℕ → ℕ → HandlerEntry ℕ
second id h p = record { id = id; handler = some h; priority = pos p }

abbrev letter : DlqEntry ℕ
letter = record {
  event = 1;
  handler_id = "h0";
  error = "old";
  correlation_id = "c1";
  timestamp = 2;
  retry_count = 0;
}

abbrev queue : Dlq ℕ
queue = record { entries = letter ∷ []; capacity = 5 }

abbrev bus : Bus ℕ ℕ
bus = record {
  handlers = ("created", second "h2" 2 0 ∷ second "h1" 1 1 ∷ []) ∷ ("*", second "h0" 0 0 ∷ []) ∷ [];
  dlq = some queue;
  max_attempts = pos 3;
  closed = false;
}

abbrev published : Published ℕ
published = record { event = 8; event_type = "created"; meta_id = "m"; meta_correlation_id = "" }

abbrev text : String → InvokeError ℕ → String
text id e = "failed"

invoke_loop_lem_example :
    ((invoke_loop attempts 2 0 3 none).1 ≤ 3)
    × (((invoke_loop attempts 2 0 3 none).0 ≡ none) ↔ ((j : ℕ) × (j < 3) × (result 2 j ≡ none)))
invoke_loop_lem_example = invoke_loop_lem attempts 2 3 (λ k. (refl, refl))

handlers_there : All (λ e. is_some e.handler ≡ true) (recipients "created" bus)
unfolding recipients subscribers lookup
handlers_there = (refl, (refl, (refl, tt)))

letters_fit :
    length queue.entries
      + length (letters attempts text 9 (pos 3) published (recipients "created" bus))
    ≤ 5
unfolding recipients subscribers lookup letters invoke_with_retry invoke_loop
letters_fit = omega arith

publish-letters_example :
    publish attempts text 9 published bus
    ≡ some (
      record bus {
        dlq = some (record queue {
          entries =
              queue.entries ++ letters attempts text 9 (pos 3) published (recipients "created" bus);
        });
      },
      false,
    )
publish-letters_example =
    publish-letters attempts text 9 published bus queue refl refl handlers_there letters_fit

abbrev calls : List (Call ℕ)
calls =
    subscribing "h1" "created" (some 1) (pos 1)
    ∷ subscribing "h2" "created" (some 2) (pos 0)
    ∷ unsubscribing "created" "h1"
    ∷ []

run-IsSorted_example :
    let b : Bus ℕ ℕ = run calls (new_bus (some queue) (pos 3)) in
    ((other : String) → IsSorted (subscribers other b.handlers))
    × ((other : String) (p : ℤ)
        → of_priority p (subscribers other (subscribe "h0" "created" (some 0) (pos 0) b).handlers)
          ≡ of_priority p (subscribers other b.handlers)
            ++ (if str_eq "created" other && eq_ℤ (pos 0) p then second "h0" 0 0 ∷ [] else []))
run-IsSorted_example = run-IsSorted (some queue) (pos 3) calls "h0" "created" (some 0) (pos 0)

dlq_retry_lem_example :
    (dlq_retry attempts (λ _. false) bus ≡ none)
    ↔ ((j : ℕ) × (j < length queue.entries) × (false ≡ false))
dlq_retry_lem_example = dlq_retry_lem attempts (λ _. false) bus queue refl (omega arith)
