-- ===== src/Events/Store.antt =====
-- internal/infrastructure/events/store.go: the append-only log of events. Replay ids are uint64;
-- `E` is the type of events and `now` what the clock reads.
pub mod Replay
use stair_platform.Prelude.{
  ℕ, ◌+◌, ◌%◌, ◌^◌, Bool, not, ◌&&◌, List, [], ◌∷◌, ◌++◌, ltb, leb, if◌then◌else◌, length,
}

pub record StoreEntry (E : Type 0) : Type 0 where
  pub event : E
  pub stored_at : ℕ
  pub replay_id : ℕ

-- A capacity of 0 is no bound.
pub record Store (E : Type 0) : Type 0 where
  pub entries : List (StoreEntry E)
  pub counter : ℕ
  pub capacity : ℕ

-- `xs[1:]`
abbrev pub tail : {A : Type 0} → List A → List A
tail [] = []
tail (_ ∷ xs) = xs

unfoldable pub new_store : {E : Type 0} → ℕ → Store E
new_store capacity = record { entries = []; counter = 0; capacity = capacity }

module _ {E : Type 0} where
  unfoldable pub append : E → ℕ → Store E → Store E
  append e now s =
      let kept =
        if ltb 0 s.capacity && leb s.capacity (length s.entries)
        then tail s.entries
        else s.entries in
      let id = (s.counter + 1) % 2 ^ 64 in
      record s {
        counter = id;
        entries = kept ++ record { event = e; stored_at = now; replay_id = id } ∷ [];
      }

  unfoldable pub len : Store E → ℕ
  len s = length s.entries

  -- `Events(typ)`, where `is_type` tests an event's type.
  unfoldable pub events_of : (E → Bool) → List (StoreEntry E) → List (StoreEntry E)
  events_of is_type [] = []
  events_of is_type (e ∷ es) =
      let rest = events_of is_type es in if is_type e.event then e ∷ rest else rest

  -- The entries that the callback of `ReplaySince` is called on, in order.
  unfoldable pub replay_since :
      ℕ → (StoreEntry E → Bool) → List (StoreEntry E) → List (StoreEntry E)
  replay_since since fn [] = []
  replay_since since fn (e ∷ es) =
      let rest = replay_since since fn es in
      if leb e.replay_id since then rest else if not (fn e) then e ∷ [] else e ∷ rest

  unfoldable pub replay_all : (StoreEntry E → Bool) → List (StoreEntry E) → List (StoreEntry E)
  replay_all = replay_since 0

  unfoldable pub clear : Store E → Store E
  clear s = record s { entries = []; counter = 0 }
