-- ===== src/Events/Bus/Subscriptions.antt =====
-- The subscribers of a bus that Subscribe and Unsubscribe have built.
use stair_platform.Prelude.{
  String, ◌≡◌, sym, inl, inr, ◌&&◌, Option, none, some, List, [], ◌∷◌, ◌++◌, arith, str_eq, eq_iff,
  if◌then◌else◌, Bool-cases, Option-cases, lookup, insert, lookup-insert, ℤ, eq_ℤ,
}
use stair_platform.Events.DeadLetters.{Dlq}
use mathlib.Core.List.{append-nil}
use stair_platform.Events.Bus.{
  HandlerEntry, Bus, add_entry, cut, subscribe, unsubscribe, close, subscribers, new_bus,
}
use stair_platform.Events.Bus.Priority.{
  IsSorted, of_priority, add_entry-IsSorted, cut-IsSorted, of_priority-add_entry,
}

-- A call that changes the subscribers, or closes the bus.
pub data Call (H : Type 0) : Type 0 where
  subscribing : String → String → Option H → ℤ → Call H
  unsubscribing : String → String → Call H
  closing : Call H

subscribers-insert :
    {H : Type 0} (typ other : String) (es : List (HandlerEntry H))
    (m : List (String × List (HandlerEntry H)))
    → subscribers other (insert typ es m) ≡ (if str_eq typ other then es else subscribers other m)
unfolding subscribers
subscribers-insert typ other es m = ground (arith, lookup-insert typ other es m)

module _ {H V : Type 0} where
  unfoldable pub apply : Call H → Bus H V → Bus H V
  apply (subscribing id typ handler priority) b = subscribe id typ handler priority b
  apply (unsubscribing typ id) b = (unsubscribe typ id b).0
  apply closing b = close b

  unfoldable pub run : List (Call H) → Bus H V → Bus H V
  unfolding apply
  run [] b = b
  run (c ∷ cs) b = run cs (apply c b)

  abbrev AllSorted : Bus H V → Type 0
  AllSorted b = (typ : String) → IsSorted (subscribers typ b.handlers)

  insert-AllSorted :
      (typ : String) (es : List (HandlerEntry H)) (b : Bus H V)
      → AllSorted b
      → IsSorted es
      → AllSorted (record b { handlers = insert typ es b.handlers })
  insert-AllSorted typ es b all s other = elim (Bool-cases (str_eq typ other)) [
    | inl same ↦ rw (subscribers-insert, same) s
    | inr apart ↦ rw (subscribers-insert, apart) (all other)
  ]

  unsubscribed :
      (typ id : String) (b : Bus H V) (kept : List (HandlerEntry H))
      → cut id (subscribers typ b.handlers) ≡ some kept
      → (unsubscribe typ id b).0 ≡ record b { handlers = insert typ kept b.handlers }
  unfolding unsubscribe
  unsubscribed typ id b kept h = ground arith

  unsubscribed_none :
      (typ id : String) (b : Bus H V)
      → cut id (subscribers typ b.handlers) ≡ none
      → (unsubscribe typ id b).0 ≡ b
  unfolding unsubscribe
  unsubscribed_none typ id b h = ground arith

  apply-AllSorted : (c : Call H) (b : Bus H V) → AllSorted b → AllSorted (apply c b)
  unfolding apply subscribe close
  apply-AllSorted (subscribing id typ handler priority) b all =
      let entry : HandlerEntry H = record { id = id; handler = handler; priority = priority } in
      insert-AllSorted typ (add_entry entry (subscribers typ b.handlers)) b all
        (add_entry-IsSorted entry (subscribers typ b.handlers) (all typ))
  apply-AllSorted (unsubscribing typ id) b all =
      elim (Option-cases (cut id (subscribers typ b.handlers))) [
        | inl missing ↦ rw (unsubscribed_none typ id b missing) all
        | inr (kept, found) ↦ rw (unsubscribed typ id b kept found) (
            insert-AllSorted typ kept b all
              (cut-IsSorted id (subscribers typ b.handlers) kept found (all typ)))
      ]
  apply-AllSorted closing b all = all

  run-AllSorted : (cs : List (Call H)) (b : Bus H V) → AllSorted b → AllSorted (run cs b)
  unfolding run
  run-AllSorted [] b all = all
  run-AllSorted (c ∷ cs) b all = run-AllSorted cs (apply c b) (apply-AllSorted c b all)

  subscribe-order :
      (b : Bus H V) (id typ other : String) (handler : Option H) (priority p : ℤ)
      → of_priority p (subscribers other (subscribe id typ handler priority b).handlers)
        ≡ of_priority p (subscribers other b.handlers)
          ++ (if str_eq typ other && eq_ℤ priority p
              then record { id = id; handler = handler; priority = priority } ∷ []
              else [])
  unfolding subscribe of_priority
  subscribe-order b id typ other handler priority p =
      let entry : HandlerEntry H = record { id = id; handler = handler; priority = priority } in
      let es = subscribers typ b.handlers in
      elim (Bool-cases (str_eq typ other)) [
        | inl same ↦
            let here : typ ≡ other = ground (arith, same, eq_iff typ other) in
            rw (subscribers-insert typ other (add_entry entry es) b.handlers, same, sym here)
              (of_priority-add_entry p entry es)
        | inr apart ↦
            rw (subscribers-insert typ other (add_entry entry es) b.handlers, apart)
              (sym (append-nil (of_priority p (subscribers other b.handlers))))
      ]

  -- On a bus that any calls have built, the subscribers of each type stand in the order of their
  -- priorities, and a new subscription becomes the last one of its priority and leaves the order of
  -- the others, of its type and of each other type.
  pub run-IsSorted :
      (dlq : Option (Dlq V)) (max_attempts : ℤ) (calls : List (Call H)) (id typ : String)
      (handler : Option H) (priority : ℤ)
      → let b = run calls (new_bus dlq max_attempts) in
        ((other : String) → IsSorted (subscribers other b.handlers))
        × ((other : String) (p : ℤ)
            → of_priority p (subscribers other (subscribe id typ handler priority b).handlers)
              ≡ of_priority p (subscribers other b.handlers)
                ++ (if str_eq typ other && eq_ℤ priority p
                    then record { id = id; handler = handler; priority = priority } ∷ []
                    else []))
  unfolding new_bus subscribers lookup IsSorted
  run-IsSorted dlq max_attempts calls id typ handler priority =
      let b : Bus H V = run calls (new_bus dlq max_attempts) in
      (
        run-AllSorted calls (new_bus dlq max_attempts) (λ other. tt),
        λ other p. subscribe-order b id typ other handler priority p,
      )
