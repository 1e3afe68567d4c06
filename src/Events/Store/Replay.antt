-- ===== src/Events/Store/Replay.antt =====
-- The ids of the event store, and what a replay sees.
use stair_platform.Prelude.{
  ℕ, zero, suc, ◌+◌, ◌-◌, ◌^◌, ◌≤◌, ◌<◌, ◌≡◌, refl, sym, ap, ◌∙◌, inl, inr, true, false, ◌&&◌, List,
  [], ◌∷◌, ◌++◌, arith, ltb, leb, Bool-cases, length, drop, length-append,
}
use stair_platform.Events.Store.{StoreEntry, Store, new_store, append, tail, replay_since}

-- The entries, oldest first, have the ids up to the counter, one after the other.
unfoldable pub Consecutive : {E : Type 0} → ℕ → List (StoreEntry E) → Type 0
Consecutive next [] = Unit
Consecutive next (e ∷ es) = (e.replay_id ≡ next) × Consecutive (next + 1) es

module _ {E : Type 0} where
  -- The store after events at given times.
  unfoldable pub append_all : List (E × ℕ) → Store E → Store E
  append_all [] s = s
  append_all ((e, now) ∷ es) s = append_all es (append e now s)

  -- No id has wrapped around: the entries carry the ids that lead up to the counter.
  pub record Inv (capacity : ℕ) (s : Store E) : Type 0 where
    pub same_capacity : s.capacity ≡ capacity
    pub bounded : 1 ≤ capacity → length s.entries ≤ capacity
    pub no_more : length s.entries ≤ s.counter
    pub in_order : Consecutive (s.counter - length s.entries + 1) s.entries

  Consecutive-append :
      (next : ℕ) (es : List (StoreEntry E)) (e : StoreEntry E)
      → Consecutive next es
      → e.replay_id ≡ next + length es
      → Consecutive next (es ++ e ∷ [])
  unfolding Consecutive
  Consecutive-append next [] e c h = (omega (arith, h), tt)
  Consecutive-append next (x ∷ es) e c h =
      (c.0, Consecutive-append (next + 1) es e c.1 (omega (arith, h)))

  length-tail : (es : List (StoreEntry E)) → length (tail es) ≡ length es - 1
  length-tail [] = refl
  length-tail (x ∷ es) = omega arith

  Consecutive-tail :
      (next : ℕ) (es : List (StoreEntry E)) → Consecutive next es → Consecutive (next + 1) (tail es)
  unfolding Consecutive
  Consecutive-tail next [] c = tt
  Consecutive-tail next (x ∷ es) c = c.1

  -- An entry with the next id.
  abbrev pub entry : E → ℕ → Store E → StoreEntry E
  entry e now s = record { event = e; stored_at = now; replay_id = s.counter + 1 }

  append_counter :
      (e : E) (now : ℕ) (s : Store E)
      → s.counter + 1 < 2 ^ 64
      → (append e now s).counter ≡ s.counter + 1
  unfolding append
  append_counter e now s h = omega arith

  append_drops :
      (e : E) (now : ℕ) (s : Store E)
      → s.counter + 1 < 2 ^ 64
      → (ltb 0 s.capacity && leb s.capacity (length s.entries)) ≡ true
      → append e now s
        ≡ record s { counter = s.counter + 1; entries = tail s.entries ++ entry e now s ∷ [] }
  unfolding append
  append_drops e now s w h = rw (append_counter e now s w, h, append) refl

  append_keeps :
      (e : E) (now : ℕ) (s : Store E)
      → s.counter + 1 < 2 ^ 64
      → (ltb 0 s.capacity && leb s.capacity (length s.entries)) ≡ false
      → append e now s
        ≡ record s { counter = s.counter + 1; entries = s.entries ++ entry e now s ∷ [] }
  unfolding append
  append_keeps e now s w h = rw (append_counter e now s w, h, append) refl

  -- Rewriting the start of a row of ids.
  Consecutive-from :
      (a b : ℕ) (es : List (StoreEntry E)) → a ≡ b → Consecutive a es → Consecutive b es
  Consecutive-from a b es h c = rw h at c

  append_drop-Inv :
      (capacity : ℕ) (e : E) (now : ℕ) (s : Store E)
      → (ltb 0 s.capacity && leb s.capacity (length s.entries)) ≡ true
      → Inv capacity s
      → Inv capacity
          (record s { counter = s.counter + 1; entries = tail s.entries ++ entry e now s ∷ [] })
  append_drop-Inv capacity e now s h i =
      let some_entry : 1 ≤ length s.entries = ground arith in
      let len : length (tail s.entries ++ entry e now s ∷ []) ≡ length s.entries = omega (
        arith,
        length-append (tail s.entries) (entry e now s ∷ []),
        length-tail s.entries,
        some_entry,
      ) in
      record {
        same_capacity = i.same_capacity;
        bounded = λ c. omega (arith, i.bounded c, len);
        no_more = omega (arith, i.no_more, len);
        in_order =
            Consecutive-from (s.counter - length s.entries + 1 + 1) _ _
              (omega (arith, i.no_more, len))
              (Consecutive-append (s.counter - length s.entries + 1 + 1) (tail s.entries)
                (entry e now s)
                (Consecutive-tail (s.counter - length s.entries + 1) s.entries i.in_order)
                (omega (arith, i.no_more, length-tail s.entries, some_entry)));
      }

  append_keep-Inv :
      (capacity : ℕ) (e : E) (now : ℕ) (s : Store E)
      → (ltb 0 s.capacity && leb s.capacity (length s.entries)) ≡ false
      → Inv capacity s
      → Inv capacity
          (record s { counter = s.counter + 1; entries = s.entries ++ entry e now s ∷ [] })
  append_keep-Inv capacity e now s h i =
      let len : length (s.entries ++ entry e now s ∷ []) ≡ length s.entries + 1 =
        omega (arith, length-append s.entries (entry e now s ∷ [])) in
      record {
        same_capacity = i.same_capacity;
        bounded = λ c. ground (arith, i.same_capacity, len);
        no_more = omega (arith, i.no_more, len);
        in_order =
            Consecutive-from (s.counter - length s.entries + 1) _ _ (omega (arith, i.no_more, len))
              (Consecutive-append (s.counter - length s.entries + 1) s.entries (entry e now s)
                i.in_order (omega (arith, i.no_more)));
      }

  append-Inv :
      (capacity : ℕ) (e : E) (now : ℕ) (s : Store E)
      → s.counter + 1 < 2 ^ 64
      → Inv capacity s
      → Inv capacity (append e now s)
  append-Inv capacity e now s w i =
      elim (Bool-cases (ltb 0 s.capacity && leb s.capacity (length s.entries))) [
        | inl h ↦ rw (append_drops e now s w h) (append_drop-Inv capacity e now s h i)
        | inr h ↦ rw (append_keeps e now s w h) (append_keep-Inv capacity e now s h i)
      ]

  append_all-Inv :
      (capacity : ℕ) (es : List (E × ℕ)) (s : Store E)
      → s.counter + length es < 2 ^ 64
      → Inv capacity s
      → Inv capacity (append_all es s)
  unfolding append_all
  append_all-Inv capacity [] s w i = i
  append_all-Inv capacity ((e, now) ∷ es) s w i =
      append_all-Inv capacity es (append e now s)
        (rw (append_counter e now s (omega (arith, w))) (omega (arith, w)))
        (append-Inv capacity e now s (omega (arith, w)) i)

  drop_nil : (n : ℕ) → drop {A = StoreEntry E} n [] ≡ []
  drop_nil zero = refl
  drop_nil (suc n) = refl

  drop-suc :
      (n m : ℕ) (e : StoreEntry E) (es : List (StoreEntry E))
      → n ≡ suc m
      → drop n (e ∷ es) ≡ drop m es
  drop-suc n m e es h = rw h refl

  drop_zero :
      (n m : ℕ)
      → n ≡ 0
      → m ≡ 0
      → (e : StoreEntry E) (es : List (StoreEntry E)) → drop n (e ∷ es) ≡ e ∷ drop m es
  drop_zero n m h k e es = rw (h, k) refl

  replay_since-Consecutive :
      (since next : ℕ) (es : List (StoreEntry E))
      → Consecutive next es
      → replay_since since (λ _. true) es ≡ drop (since + 1 - next) es
  unfolding replay_since Consecutive
  replay_since-Consecutive since next [] c = sym (drop_nil (since + 1 - next))
  replay_since-Consecutive since next (e ∷ es) c = elim (Bool-cases (leb e.replay_id since)) [
    | inl h ↦
        rw (h, replay_since, replay_since-Consecutive since (next + 1) es c.1)
          (sym (drop-suc (since + 1 - next) (since + 1 - (next + 1)) e es (ground (arith, c.0))))
    | inr h ↦
        rw (h, replay_since, replay_since-Consecutive since (next + 1) es c.1)
          (sym (
            drop_zero (since + 1 - next) (since + 1 - (next + 1)) (ground (arith, c.0))
              (ground (arith, c.0)) e es))
  ]

  replay_after :
      (s : Store E) (since : ℕ)
      → Consecutive (s.counter - length s.entries + 1) s.entries
      → replay_since since (λ _. true) s.entries
        ≡ drop (since - (s.counter - length s.entries)) s.entries
  replay_after s since c =
      replay_since-Consecutive since (s.counter - length s.entries + 1) s.entries c
      ∙ ap (λ n. drop n s.entries) (omega arith)

  new-Inv : (capacity : ℕ) → Inv capacity (new_store {E = E} capacity)
  unfolding new_store Consecutive
  new-Inv capacity = record {
    same_capacity = refl;
    bounded = λ _. omega arith;
    no_more = omega arith;
    in_order = tt;
  }

  new_room :
      (capacity : ℕ) (es : List (E × ℕ))
      → length es < 2 ^ 64
      → (new_store {E = E} capacity).counter + length es < 2 ^ 64
  unfolding new_store
  new_room capacity es w = omega (arith, w)

  -- As long as fewer than 2^64 events are appended to a new store, it holds no more entries than a
  -- capacity that is not 0, their ids are consecutive and end at the counter, and a replay from an
  -- id on calls back on exactly the entries after that id, in order.
  pub append_all-replay :
      (capacity : ℕ) (es : List (E × ℕ)) (since : ℕ)
      → length es < 2 ^ 64
      → let s = append_all es (new_store capacity) in
        (1 ≤ capacity → length s.entries ≤ capacity)
        × Consecutive (s.counter - length s.entries + 1) s.entries
        × (replay_since since (λ _. true) s.entries
            ≡ drop (since - (s.counter - length s.entries)) s.entries)
  append_all-replay capacity es since w =
      let i : Inv capacity (append_all es (new_store capacity)) =
        append_all-Inv capacity es (new_store capacity) (new_room capacity es w)
          (new-Inv capacity) in
      (i.bounded, i.in_order, replay_after (append_all es (new_store capacity)) since i.in_order)
