-- ===== src/Events/Examples.antt =====
-- The dead letter queue and the event store at concrete entries.
use stair_platform.Prelude.{
  ℕ, ◌+◌, ◌-◌, ◌≤◌, ◌<◌, String, ◌≡◌, true, some, List, [], ◌∷◌, arith, length, drop,
}
use stair_platform.Events.DeadLetters.{DlqEntry, Dlq, tail, push, pop}
use stair_platform.Events.Store.{new_store, replay_since}
use stair_platform.Events.Store.Replay.{append_all, Consecutive, append_all-replay}
use stair_platform.Events.DeadLetters.Bounds.{pop-push}

abbrev letter : String → DlqEntry ℕ
letter handler = record {
  event = 1;
  handler_id = handler;
  error = "timeout";
  correlation_id = "c1";
  timestamp = 5;
  retry_count = 0;
}

abbrev full : Dlq ℕ
full = record { entries = letter "a" ∷ letter "b" ∷ []; capacity = 2 }

pop-push_example :
    ((pop (push (letter "c") full)).1 ≡ some (letter "c"))
    × (length (push (letter "c") full).entries ≤ 2)
    × (length full.entries < 2 → (pop (push (letter "c") full)).0 ≡ full)
    × (length full.entries ≡ 2 → (pop (push (letter "c") full)).0.entries ≡ tail full.entries)
pop-push_example = pop-push (letter "c") full (omega arith) (omega arith)

-- Three events in a store for two.
abbrev three : List (ℕ × ℕ)
three = (7, 1) ∷ (8, 2) ∷ (9, 3) ∷ []

append_all-replay_example :
    let s = append_all three (new_store 2) in
    (1 ≤ 2 → length s.entries ≤ 2)
    × Consecutive (s.counter - length s.entries + 1) s.entries
    × (replay_since 2 (λ _. true) s.entries ≡ drop (2 - (s.counter - length s.entries)) s.entries)
append_all-replay_example = append_all-replay 2 three 2 (omega arith)
