-- ===== src/Cache/Bounds.antt =====
-- How large a cache gets, and what a read after a write returns.
use stair_platform.Prelude.{
  ℕ, ◌+◌, ◌≤◌, String, ◌≡◌, refl, ap, ◌∙◌, inl, inr, Bool, true, not, ◌&&◌, ◌||◌, eq_iff,
  Bool-cases, lookup, lookup-insert, lookup-erase, false, none, some, List, [], ◌∷◌, arith, str_eq,
  ltb, if◌then◌else◌, lookup-insert_self,
}
use stair_platform.Cache.{
  Entry, exists, has_prefix, drop_prefixed, Cache, new, get, set, make_room, set_with_ttl, delete,
  invalidate_prefix, clear, size,
}
use stair_platform.Cache.Eviction.{
  Inv, NamedItems-erase, NamedItems-drop_prefixed, length-erase, length-drop_prefixed,
  set_with_ttl-Inv,
}

-- The methods that change the cache.
pub data Op (V : Type 0) : Type 0 where
  op_set : String → V → ℕ → Op V
  op_set_with_ttl : String → V → ℕ → ℕ → Op V
  op_delete : String → Op V
  op_invalidate_prefix : String → Op V
  op_clear : Op V

module _ {V : Type 0} where
  unfoldable pub step : Op V → Cache V → Cache V
  step (op_set key value now) c = set key value now c
  step (op_set_with_ttl key value ttl now) c = set_with_ttl key value ttl now c
  step (op_delete key) c = delete key c
  step (op_invalidate_prefix prefix) c = invalidate_prefix prefix c
  step op_clear c = clear c

  unfoldable pub run : List (Op V) → Cache V → Cache V
  run [] c = c
  run (op ∷ ops) c = run ops (step op c)

  -- Every write names its key.
  abbrev pub NamedOps : List (Op V) → Type 0
  NamedOps [] = Unit
  NamedOps (op_set key value now ∷ ops) = (str_eq key "" ≡ false) × NamedOps ops
  NamedOps (op_set_with_ttl key value ttl now ∷ ops) = (str_eq key "" ≡ false) × NamedOps ops
  NamedOps (_ ∷ ops) = NamedOps ops

  run-CacheInv :
      (m : ℕ) (ops : List (Op V)) (c : Cache V) → 1 ≤ m → NamedOps ops → Inv m c → Inv m (run ops c)
  unfolding run step set delete invalidate_prefix clear
  run-CacheInv m [] c le n i = i
  run-CacheInv m (op_set key value now ∷ ops) c le n i =
      run-CacheInv m ops _ le n.1 (set_with_ttl-Inv m key value c.default_ttl now c le n.0 i)
  run-CacheInv m (op_set_with_ttl key value ttl now ∷ ops) c le n i =
      run-CacheInv m ops _ le n.1 (set_with_ttl-Inv m key value ttl now c le n.0 i)
  run-CacheInv m (op_delete key ∷ ops) c le n i = run-CacheInv m ops (delete key c) le n (record {
    same_max = i.same_max;
    named = NamedItems-erase key c.items i.named;
    bounded = omega (arith, i.bounded, length-erase key c.items);
  })
  run-CacheInv m (op_invalidate_prefix prefix ∷ ops) c le n i =
      run-CacheInv m ops (invalidate_prefix prefix c) le n (record {
        same_max = i.same_max;
        named = NamedItems-drop_prefixed prefix c.items i.named;
        bounded = omega (arith, i.bounded, length-drop_prefixed prefix c.items);
      })
  run-CacheInv m (op_clear ∷ ops) c le n i =
      run-CacheInv m ops (clear c) le n
        (record { same_max = i.same_max; named = tt; bounded = omega arith })

  -- A new cache with room for at least one entry never holds more than its maximum, whatever is
  -- written, deleted, invalidated and cleared, as long as no key written is the empty text.
  pub size-bounded :
      (m ttl : ℕ) (ops : List (Op V)) → 1 ≤ m → NamedOps ops → size (run ops (new m ttl)) ≤ m
  unfolding size new
  size-bounded m ttl ops le n =
      let start : Inv m (new m ttl) = record {
        same_max = refl;
        named = tt;
        bounded = omega arith;
      } in
      (run-CacheInv m ops (new m ttl) le n start).bounded

  -- A call that neither writes nor removes the key: a write of another key finds its own entry or
  -- room.
  unfoldable pub spares : String → Op V → Cache V → Bool
  spares key (op_set other value now) c =
      not (str_eq other key) && (exists other c || ltb (size c) c.max_size)
  spares key (op_set_with_ttl other value ttl now) c =
      not (str_eq other key) && (exists other c || ltb (size c) c.max_size)
  spares key (op_delete other) c = not (str_eq other key)
  spares key (op_invalidate_prefix prefix) c = not (has_prefix prefix key)
  spares key op_clear c = false

  unfoldable pub all_spare : String → List (Op V) → Cache V → Bool
  all_spare key [] c = true
  all_spare key (op ∷ ops) c =
      let rest = all_spare key ops (step op c) in if spares key op c then rest else false

  lookup-drop_prefixed :
      (prefix key : String) (items : List (String × Entry V))
      → has_prefix prefix key ≡ false
      → lookup key (drop_prefixed prefix items) ≡ lookup key items
  unfolding drop_prefixed lookup
  lookup-drop_prefixed prefix key [] h = refl
  lookup-drop_prefixed prefix key ((k, e) ∷ items) h = elim (Bool-cases (str_eq k key)) [
    | inl same ↦
        let i : k ≡ key = (eq_iff k key).0 same in
        ground (arith, same, h, i, ap (has_prefix prefix) i)
    | inr other ↦ ground (arith, other, lookup-drop_prefixed prefix key items h)
  ]

  lookup-set_with_ttl :
      (key other : String) (value : V) (ttl now : ℕ) (c : Cache V)
      → (not (str_eq other key) && (exists other c || ltb (size c) c.max_size)) ≡ true
      → lookup key (set_with_ttl other value ttl now c).items ≡ lookup key c.items
  unfolding set_with_ttl make_room size
  lookup-set_with_ttl key other value ttl now c h =
      let room : make_room other c ≡ c = ground (arith, h) in
      rw room (
        lookup-insert other key (record { value = value; expires_at = now + ttl }) c.items
        ∙ ground (arith, h))

  step-spares :
      (key : String) (op : Op V) (c : Cache V)
      → spares key op c ≡ true
      → lookup key (step op c).items ≡ lookup key c.items
  unfolding step spares set delete invalidate_prefix
  step-spares key (op_set other value now) c h =
      lookup-set_with_ttl key other value c.default_ttl now c h
  step-spares key (op_set_with_ttl other value ttl now) c h =
      lookup-set_with_ttl key other value ttl now c h
  step-spares key (op_delete other) c h = lookup-erase other key c.items ∙ ground (arith, h)
  step-spares key (op_invalidate_prefix prefix) c h =
      lookup-drop_prefixed prefix key c.items (ground (arith, h))
  step-spares key op_clear c h = absurd (ground (arith, h))

  run-spares :
      (key : String) (ops : List (Op V)) (c : Cache V)
      → all_spare key ops c ≡ true
      → lookup key (run ops c).items ≡ lookup key c.items
  unfolding run all_spare
  run-spares key [] c h = refl
  run-spares key (op ∷ ops) c h =
      run-spares key ops (step op c) (ground (arith, h)) ∙ step-spares key op c (ground (arith, h))

  -- A value that is written is read back until its time is over, and not after it, over any later
  -- calls that neither write nor delete nor invalidate its key and that write other keys only where
  -- they have an entry or the cache has room, so that nothing is evicted.
  pub get-run :
      (key : String) (value : V) (ttl now later : ℕ) (c : Cache V) (ops : List (Op V))
      → all_spare key ops (set_with_ttl key value ttl now c) ≡ true
      → get key later (run ops (set_with_ttl key value ttl now c))
        ≡ (if ltb (now + ttl) later then none else some value)
  unfolding get set_with_ttl
  get-run key value ttl now later c ops h = ground (
    arith,
    run-spares key ops (set_with_ttl key value ttl now c) h,
    lookup-insert_self key (record { value = value; expires_at = now + ttl })
        (make_room key c).items,
  )
