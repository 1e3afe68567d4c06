-- ===== src/Cache.antt =====
-- internal/infrastructure/cache/cache.go: the cache with a time to live. A method holds the mutex
-- for its whole body, so it is one step; `now` is what the clock reads, in nanoseconds. The order
-- of the association list is the one in which a `range` loop meets the entries.
mod Eviction
mod Bounds
mod Examples
use stair_platform.Prelude.{
  ℕ, ◌+◌, String, Bool, not, ◌&&◌, ◌||◌, Option, none, some, List, [], ◌∷◌, str_eq, ltb, leb,
  if◌then◌else◌, length, lookup, insert, erase, is_some,
}
use Prim.Native.String.{len, slice}

pub record Entry (V : Type 0) : Type 0 where
  pub value : V
  pub expires_at : ℕ

pub record Cache (V : Type 0) : Type 0 where
  pub items : List (String × Entry V)
  pub max_size : ℕ
  pub default_ttl : ℕ

unfoldable pub new : {V : Type 0} → ℕ → ℕ → Cache V
new max_size default_ttl = record { items = []; max_size = max_size; default_ttl = default_ttl }

-- `len(key) >= len(prefix) && key[:len(prefix)] == prefix`
unfoldable pub has_prefix : String → String → Bool
has_prefix prefix key = leb (len prefix) (len key) && str_eq (slice key 0 (len prefix)) prefix

module _ {V : Type 0} where
  -- `none` is the zero value with false.
  unfoldable pub get : String → ℕ → Cache V → Option V
  get key now c = elim (lookup key c.items) [
    | none ↦ none
    | some e ↦ if ltb e.expires_at now then none else some e.value
  ]

  unfoldable pub exists : String → Cache V → Bool
  exists key c = is_some (lookup key c.items)

  -- The loop of `evictOldest`: the key so far, where "" is none yet, and its time.
  unfoldable pub oldest : List (String × Entry V) → String → ℕ → String
  oldest [] key time = key
  oldest ((k, e) ∷ items) key time =
      let keep = oldest items key time in
      let switch = oldest items k e.expires_at in
      if str_eq key "" || ltb e.expires_at time then switch else keep

  unfoldable pub evict_oldest : Cache V → Cache V
  unfolding oldest
  evict_oldest c =
      let key = oldest c.items "" 0 in
      if str_eq key "" then c else record c { items = erase key c.items }

  -- `if len(c.items) >= c.maxSize && !c.exists(key) { c.evictOldest() }`
  unfoldable pub make_room : String → Cache V → Cache V
  unfolding evict_oldest exists
  make_room key c =
      if leb c.max_size (length c.items) && not (exists key c) then evict_oldest c else c

  unfoldable pub set_with_ttl : String → V → ℕ → ℕ → Cache V → Cache V
  unfolding make_room
  set_with_ttl key value ttl now c =
      let c' = make_room key c in
      record c' { items = insert key (record { value = value; expires_at = now + ttl }) c'.items }

  unfoldable pub set : String → V → ℕ → Cache V → Cache V
  set key value now c = set_with_ttl key value c.default_ttl now c

  unfoldable pub delete : String → Cache V → Cache V
  delete key c = record c { items = erase key c.items }

  -- The loop of `InvalidatePrefix`.
  unfoldable pub drop_prefixed : String → List (String × Entry V) → List (String × Entry V)
  unfolding has_prefix
  drop_prefixed prefix [] = []
  drop_prefixed prefix ((k, e) ∷ items) =
      let rest = drop_prefixed prefix items in if has_prefix prefix k then rest else (k, e) ∷ rest

  unfoldable pub invalidate_prefix : String → Cache V → Cache V
  invalidate_prefix prefix c = record c { items = drop_prefixed prefix c.items }

  unfoldable pub clear : Cache V → Cache V
  clear c = record c { items = [] }

  unfoldable pub size : Cache V → ℕ
  size c = length c.items
