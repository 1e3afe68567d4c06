-- ===== src/Cache/Eviction.antt =====
-- Room for a write: what `evictOldest` removes, and that each method keeps the maximum.
use stair_platform.Prelude.{
  ℕ, ◌+◌, ◌-◌, ◌≤◌, String, ◌≡◌, refl, ◌∙◌, ◌⊎◌, inl, inr, true, false, not, ◌&&◌, ◌||◌, List, [],
  ◌∷◌, arith, str_eq, eq_iff, ltb, leb, Bool-cases, length, lookup, insert, erase, is_some,
  length-insert,
}
use stair_platform.Cache.{
  Entry, Cache, exists, oldest, evict_oldest, make_room, set_with_ttl, has_prefix, drop_prefixed,
}

pub length-erase : {A : Type 0} (k : String) (m : List (String × A)) → length (erase k m) ≤ length m
unfolding erase
length-erase k [] = omega arith
length-erase k ((j, w) ∷ m) = ground (arith, length-erase k m)

-- An erased key that was there makes the map shorter.
length-erase_present :
    {A : Type 0} (k : String) (m : List (String × A))
    → is_some (lookup k m) ≡ true
    → length (erase k m) + 1 ≤ length m
unfolding erase lookup
length-erase_present k [] h = ground arith
length-erase_present k ((j, w) ∷ m) h = elim (Bool-cases (str_eq j k)) [
  | inl e ↦ ground (arith, length-erase k m)
  | inr e ↦ ground (arith, length-erase_present k m)
]

module _ {V : Type 0} where
  -- No entry has the empty key.
  abbrev pub NamedItems : List (String × Entry V) → Type 0
  NamedItems [] = Unit
  NamedItems ((k, e) ∷ items) = (str_eq k "" ≡ false) × NamedItems items

  oldest_switch :
      (k key : String) (e : Entry V) (time : ℕ) (items : List (String × Entry V))
      → (str_eq key "" || ltb e.expires_at time) ≡ true
      → oldest ((k, e) ∷ items) key time ≡ oldest items k e.expires_at
  unfolding oldest
  oldest_switch k key e time items h = rw h refl

  oldest_keep :
      (k key : String) (e : Entry V) (time : ℕ) (items : List (String × Entry V))
      → (str_eq key "" || ltb e.expires_at time) ≡ false
      → oldest ((k, e) ∷ items) key time ≡ oldest items key time
  unfolding oldest
  oldest_keep k key e time items h = rw h refl

  present_later :
      (q k : String) (e : Entry V) (items : List (String × Entry V))
      → is_some (lookup q items) ≡ true
      → is_some (lookup q ((k, e) ∷ items)) ≡ true
  unfolding lookup
  present_later q k e items h = ground arith

  present_first :
      (q k : String) (e : Entry V) (items : List (String × Entry V))
      → q ≡ k
      → is_some (lookup q ((k, e) ∷ items)) ≡ true
  unfolding lookup
  present_first q k e items h = ground (arith, eq_iff k q)

  -- The loop ends with the key that it began with or one of the map's.
  oldest_found :
      (items : List (String × Entry V)) (key : String) (time : ℕ)
      → (oldest items key time ≡ key) ⊎ (is_some (lookup (oldest items key time) items) ≡ true)
  unfolding oldest
  oldest_found [] key time = inl refl
  oldest_found ((k, e) ∷ items) key time =
      elim (Bool-cases (str_eq key "" || ltb e.expires_at time)) [
        | inl s ↦
            rw (oldest_switch k key e time items s) (elim (oldest_found items k e.expires_at) [
              | inl q ↦ inr (present_first _ k e items q)
              | inr q ↦ inr (present_later _ k e items q)
            ])
        | inr s ↦ rw (oldest_keep k key e time items s) (elim (oldest_found items key time) [
          | inl q ↦ inl q
          | inr q ↦ inr (present_later _ k e items q)
        ])
      ]

  oldest_named :
      (items : List (String × Entry V)) (key : String) (time : ℕ)
      → NamedItems items
      → str_eq key "" ≡ false
      → str_eq (oldest items key time) "" ≡ false
  unfolding oldest
  oldest_named [] key time n h = h
  oldest_named ((k, e) ∷ items) key time n h =
      elim (Bool-cases (str_eq key "" || ltb e.expires_at time)) [
        | inl s ↦
            rw (oldest_switch k key e time items s) (oldest_named items k e.expires_at n.1 n.0)
        | inr s ↦ rw (oldest_keep k key e time items s) (oldest_named items key time n.1 h)
      ]

  -- In a map with an entry, the loop from no key ends with the key of an entry.
  oldest_present :
      (k : String) (e : Entry V) (items : List (String × Entry V))
      → NamedItems ((k, e) ∷ items)
      → (str_eq (oldest ((k, e) ∷ items) "" 0) "" ≡ false)
        × (is_some (lookup (oldest ((k, e) ∷ items) "" 0) ((k, e) ∷ items)) ≡ true)
  oldest_present k e items n = rw (oldest_switch k "" e 0 items refl) (
    oldest_named items k e.expires_at n.1 n.0,
    elim (oldest_found items k e.expires_at) [
      | inl q ↦ present_first _ k e items q
      | inr q ↦ present_later _ k e items q
    ],
  )

  evict_oldest_lem :
      (c : Cache V)
      → str_eq (oldest c.items "" 0) "" ≡ false
      → (evict_oldest c).items ≡ erase (oldest c.items "" 0) c.items
  unfolding evict_oldest
  evict_oldest_lem c h = rw h refl

  evict_oldest_shrinks :
      (items : List (String × Entry V)) (max_size default_ttl : ℕ)
      → NamedItems items
      → length
          (evict_oldest
            (record { items = items; max_size = max_size; default_ttl = default_ttl })).items
        ≤ length items - 1
  unfolding evict_oldest oldest
  evict_oldest_shrinks [] max_size default_ttl n = omega arith
  evict_oldest_shrinks ((k, e) ∷ items) max_size default_ttl n =
      let found = oldest_present k e items n in
      rw
        (evict_oldest_lem
          (record { items = (k, e) ∷ items; max_size = max_size; default_ttl = default_ttl })
          found.0)
        (omega
          (arith, length-erase_present (oldest ((k, e) ∷ items) "" 0) ((k, e) ∷ items) found.1))

  NamedItems-insert :
      (k : String) (e : Entry V) (items : List (String × Entry V))
      → str_eq k "" ≡ false
      → NamedItems items
      → NamedItems (insert k e items)
  unfolding insert
  NamedItems-insert k e [] h n = (h, tt)
  NamedItems-insert k e ((j, w) ∷ items) h n = elim (Bool-cases (str_eq j k)) [
    | inl s ↦ rw (s, insert) (h, n.1)
    | inr s ↦ rw (s, insert) (n.0, NamedItems-insert k e items h n.1)
  ]

  pub NamedItems-erase :
      (k : String) (items : List (String × Entry V)) → NamedItems items → NamedItems (erase k items)
  unfolding erase
  NamedItems-erase k [] n = tt
  NamedItems-erase k ((j, w) ∷ items) n = elim (Bool-cases (str_eq j k)) [
    | inl s ↦ rw (s, erase) (NamedItems-erase k items n.1)
    | inr s ↦ rw (s, erase) (n.0, NamedItems-erase k items n.1)
  ]

  pub NamedItems-drop_prefixed :
      (p : String) (items : List (String × Entry V))
      → NamedItems items
      → NamedItems (drop_prefixed p items)
  unfolding drop_prefixed
  NamedItems-drop_prefixed p [] n = tt
  NamedItems-drop_prefixed p ((k, e) ∷ items) n = elim (Bool-cases (has_prefix p k)) [
    | inl s ↦ rw (s, drop_prefixed) (NamedItems-drop_prefixed p items n.1)
    | inr s ↦ rw (s, drop_prefixed) (n.0, NamedItems-drop_prefixed p items n.1)
  ]

  pub length-drop_prefixed :
      (p : String) (items : List (String × Entry V)) → length (drop_prefixed p items) ≤ length items
  unfolding drop_prefixed
  length-drop_prefixed p [] = omega arith
  length-drop_prefixed p ((k, e) ∷ items) = ground (arith, length-drop_prefixed p items)

  -- No more entries than the maximum, and none under the empty key.
  pub record Inv (max_size : ℕ) (c : Cache V) : Type 0 where
    pub same_max : c.max_size ≡ max_size
    pub named : NamedItems c.items
    pub bounded : length c.items ≤ max_size

  evict_oldest-NamedItems : (c : Cache V) → NamedItems c.items → NamedItems (evict_oldest c).items
  unfolding evict_oldest
  evict_oldest-NamedItems c n = elim (Bool-cases (str_eq (oldest c.items "" 0) "")) [
    | inl s ↦ rw (s, evict_oldest) n
    | inr s ↦ rw (evict_oldest_lem c s) (NamedItems-erase (oldest c.items "" 0) c.items n)
  ]

  evict_oldest_max : (c : Cache V) → (evict_oldest c).max_size ≡ c.max_size
  unfolding evict_oldest
  evict_oldest_max c = ground arith

  evict_oldest_bound :
      (c : Cache V) → NamedItems c.items → length (evict_oldest c).items ≤ length c.items - 1
  evict_oldest_bound c n = evict_oldest_shrinks c.items c.max_size c.default_ttl n

  make_room_evicts :
      (key : String) (c : Cache V)
      → (leb c.max_size (length c.items) && not (exists key c)) ≡ true
      → make_room key c ≡ evict_oldest c
  unfolding make_room
  make_room_evicts key c h = rw h refl

  make_room_keeps :
      (key : String) (c : Cache V)
      → (leb c.max_size (length c.items) && not (exists key c)) ≡ false
      → make_room key c ≡ c
  unfolding make_room
  make_room_keeps key c h = rw h refl

  length-insert_le :
      (key : String) (e : Entry V) (items : List (String × Entry V))
      → length (insert key e items) ≤ length items + 1
  length-insert_le key e items = ground (arith, length-insert key e items)

  -- After room is made for a key, its entry fits.
  make_room-Inv :
      (m : ℕ) (key : String) (e : Entry V) (c : Cache V)
      → 1 ≤ m
      → Inv m c
      → ((make_room key c).max_size ≡ m)
        × NamedItems (make_room key c).items
        × (length (insert key e (make_room key c).items) ≤ m)
  unfolding exists
  make_room-Inv m key e c le i =
      elim (Bool-cases (leb c.max_size (length c.items) && not (exists key c))) [
        | inl s ↦ rw (make_room_evicts key c s) (
          evict_oldest_max c ∙ i.same_max,
          evict_oldest-NamedItems c i.named,
          ground (
            arith,
            i.bounded,
            evict_oldest_bound c i.named,
            length-insert_le key e (evict_oldest c).items,
          ),
        )
        | inr s ↦ rw (make_room_keeps key c s) (
          i.same_max,
          i.named,
          ground (arith, i.bounded, i.same_max, length-insert key e c.items),
        )
      ]

  pub set_with_ttl-Inv :
      (m : ℕ) (key : String) (value : V) (ttl now : ℕ) (c : Cache V)
      → 1 ≤ m
      → str_eq key "" ≡ false
      → Inv m c
      → Inv m (set_with_ttl key value ttl now c)
  unfolding set_with_ttl
  set_with_ttl-Inv m key value ttl now c le h i =
      let e : Entry V = record { value = value; expires_at = now + ttl } in
      let room = make_room-Inv m key e c le i in
      record {
        same_max = room.0;
        named = NamedItems-insert key e (make_room key c).items h room.1;
        bounded = room.2;
      }
