-- ===== src/Graph/Plan/Dirty.antt =====
-- The nodes that `Plan` marks dirty.
use stair_platform.Prelude.{
  String, ◌≡◌, refl, sym, ◌≢◌, inl, inr, true, false, ◌&&◌, List, [], ◌∷◌, arith, eq_iff,
  Bool-cases, contains, contains-append, contains-add_self, not-contains-nil, contains-tail,
  contains-cases,
}
use stair_platform.Graph.{Graph, has_node}
use stair_platform.Graph.Search.{EndsAreNodes, Reach, here, next, transitive_dependents-Reach}
use stair_platform.Graph.Traversal.{transitive_dependents}
use stair_platform.Graph.Plan.{roots, expand, dirty_set}

module _ {P W : Type 0} (g : Graph P W) where
  contains-roots :
      (ids : List String) (c : String) → contains (roots g ids) c ≡ (contains ids c && has_node c g)
  unfolding roots contains
  contains-roots [] c = refl
  contains-roots (id ∷ ids) c = ground (arith, contains-roots ids c, eq_iff id c)

  expand-source :
      (ids : List String) (y : String)
      → contains (expand g ids) y ≡ true
      → (c : String) × (contains ids c ≡ true) × (contains (transitive_dependents c g) y ≡ true)
  unfolding expand
  expand-source [] y h = absurd (not-contains-nil y h)
  expand-source (id ∷ ids) y h = elim (Bool-cases (contains (transitive_dependents id g) y)) [
    | inl first ↦ (id, contains-add_self id ids, first)
    | inr other ↦
        let (c, m, d) = expand-source ids y (
          ground
            (arith, h, other, contains-append (transitive_dependents id g) (expand g ids) y)) in
        (c, contains-tail id c ids m, d)
  ]

  source-expand :
      (ids : List String) (c y : String)
      → contains ids c ≡ true
      → contains (transitive_dependents c g) y ≡ true
      → contains (expand g ids) y ≡ true
  unfolding expand
  source-expand [] c y m d = absurd (not-contains-nil c m)
  source-expand (id ∷ ids) c y m d = elim (contains-cases id c ids m) [
    | inl same ↦
        let there : contains (transitive_dependents id g) y ≡ true = rw (sym same) d in
        ground (arith, there, contains-append (transitive_dependents id g) (expand g ids) y)
    | inr later ↦ ground (
      arith,
      source-expand ids c y later d,
      contains-append (transitive_dependents id g) (expand g ids) y,
    )
  ]

  pub reached_is_node :
      (c x : String) → EndsAreNodes g → has_node c g ≡ true → Reach g c x → has_node x g ≡ true
  reached_is_node c x ends n here = n
  reached_is_node c x ends n (next {b = b} r s) = ends b x s

  -- What has to be recomputed: reached from a changed node and not changed itself.
  abbrev pub IsDirty : List String → String → Type 0
  IsDirty changed x =
      (contains changed x ≡ false)
      × ((c : String) × (contains changed c ≡ true) × (has_node c g ≡ true) × Reach g c x)

  pub dirty_set-IsDirty :
      (changed : List String) (x : String)
      → EndsAreNodes g
      → contains (dirty_set g changed) x ≡ true
      → contains changed x ≡ false
      → IsDirty changed x
  unfolding dirty_set
  dirty_set-IsDirty changed x ends d fresh =
      let expanded : contains (expand g (roots g changed)) x ≡ true = ground (
        arith,
        d,
        fresh,
        contains-append (roots g changed) (expand g (roots g changed)) x,
        contains-roots changed x,
      ) in
      let (c, m, t) = expand-source (roots g changed) x expanded in
      (
        fresh,
        (
          c,
          ground (arith, m, contains-roots changed c),
          ground (arith, m, contains-roots changed c),
          ((transitive_dependents-Reach g ends c x).0 t).1,
        ),
      )

  pub IsDirty-dirty_set :
      (changed : List String) (x : String)
      → EndsAreNodes g
      → IsDirty changed x
      → contains (dirty_set g changed) x ≡ true
  unfolding dirty_set
  IsDirty-dirty_set changed x ends (fresh, (c, m, n, r)) =
      let other : x ≢ c = λ e. absurd (ground (arith, rw (sym e) at m, fresh)) in
      let t : contains (transitive_dependents c g) x ≡ true =
        (transitive_dependents-Reach g ends c x).1 (other, r) in
      let root : contains (roots g changed) c ≡ true =
        ground (arith, m, n, contains-roots changed c) in
      ground (
        arith,
        contains-append (roots g changed) (expand g (roots g changed)) x,
        source-expand (roots g changed) c x root t,
      )
