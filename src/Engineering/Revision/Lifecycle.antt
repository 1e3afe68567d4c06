-- ===== src/Engineering/Revision/Lifecycle.antt =====
-- The life of a revision.
use stair_platform.Prelude.{ℕ, String, ◌≡◌, ◌≢◌, none, some, arith, eq_iff}
use stair_platform.Engineering.Revision.{
  draft, released, archived, cannot_advance, Revision, ok, child, release_loop, release,
}

-- `Release` always ends: with the same revision in the state released and no error, unless the
-- revision is archived, in which case it is left as it is with an error.
pub release_total :
    (r : Revision)
    → release r
      ≡ some (elim r.state [
        | archived ↦ (r, some cannot_advance)
        | _ ↦ (record r { state = released }, none)
      ])
unfolding release release_loop
release_total r = ground arith

-- A child is made only of a parent that is not released, by a named author with a reason. It
-- starts as a draft that points to its parent.
pub child-ok :
    (r : Revision) (at : ℕ) (id : String) (now : ℕ) (author reason sum : String) (c : Revision)
    → child r at id now author reason sum ≡ ok c
    → (r.state ≢ released)
      × (author ≢ "")
      × (reason ≢ "")
      × (c.parent ≡ some at)
      × (c.state ≡ draft)
      × (c.checksum ≡ sum)
unfolding child
child-ok r at id now author reason sum c h = ground (arith, eq_iff author "", eq_iff reason "")
