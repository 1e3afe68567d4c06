-- ===== src/Cache/Examples.antt =====
-- Runs of a cache with room for two entries.
use stair_platform.Prelude.{
  ℕ, ◌+◌, ◌≤◌, ◌≡◌, refl, true, none, some, List, [], ◌∷◌, arith, ltb, if◌then◌else◌, lookup,
  insert, erase,
}
use stair_platform.Cache.{new, get, set_with_ttl, size, exists, set, delete, has_prefix}
use stair_platform.Cache.Bounds.{
  Op, op_set, op_set_with_ttl, op_delete, op_invalidate_prefix, run, all_spare, spares, step,
  size-bounded, get-run,
}

abbrev ops : List (Op ℕ)
ops = op_set "a" 1 0 ∷ op_set_with_ttl "b" 2 5 1 ∷ op_set "c" 3 2 ∷ op_delete "a" ∷ []

size-bounded_example : size (run ops (new 2 100)) ≤ 2
size-bounded_example = size-bounded 2 100 ops (omega arith) (refl, (refl, (refl, tt)))

-- Another key is written and deleted, and a prefix is invalidated.
abbrev sparing : List (Op ℕ)
sparing = op_set "c" 4 3 ∷ op_delete "c" ∷ op_set "d" 5 4 ∷ op_invalidate_prefix "d" ∷ []

sparing_spares : all_spare "b" sparing (set_with_ttl "b" 2 5 1 (run ops (new 2 100))) ≡ true
unfolding all_spare spares exists lookup set_with_ttl insert run step delete set new erase size
    has_prefix
sparing_spares = refl

get-run_example :
    get "b" 6 (run sparing (set_with_ttl "b" 2 5 1 (run ops (new 2 100))))
    ≡ (if ltb (1 + 5) 6 then none else some 2)
get-run_example = get-run "b" 2 5 1 6 (run ops (new 2 100)) sparing sparing_spares
