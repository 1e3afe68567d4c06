-- ===== src/Graph/Search.antt =====
-- Depth-first search against reachability: what `dfs` and `TransitiveDependents` return.
pub mod Fuel
mod Walks
use stair_platform.Prelude.{
  ℕ, zero, suc, ◌+◌, ◌∙◌, String, ◌≡◌, refl, sym, ap, ◌≢◌, ◌↔◌, inl, inr, true, false, List, [],
  ◌∷◌, arith, str_eq, eq_iff, if◌then◌else◌, length, lookup, contains, contains-add_self,
  contains-sort_strings, not-contains-nil, contains-tail, is_some,
}
use stair_platform.Graph.{Graph, has_node, successors, keys}
use stair_platform.Graph.Traversal.{Walk, dfs_from, dfs, other_than, transitive_dependents}
pub use Walks.{Reach, here, next}
use Fuel.{unseen-le}
use Walks.{Covers, IsClosed, search, search-Covers, search-Sound, search-Logged, search-stable}

-- Every edge leads to a node of the graph.
abbrev pub EndsAreNodes : {P W : Type 0} → Graph P W → Type 0
EndsAreNodes g = (a b : String) → contains (successors a g) b ≡ true → has_node b g ≡ true

pub contains-keys {ℓ} :
    {V : Type ℓ} (m : List (String × V)) (k : String) → contains (keys m) k ≡ is_some (lookup k m)
unfolding contains keys lookup
contains-keys [] k = refl
contains-keys ((j, v) ∷ m) k = ground (arith, contains-keys m k)

pub length-keys {ℓ} : {V : Type ℓ} (m : List (String × V)) → length (keys m) ≡ length m
unfolding keys
length-keys [] = refl
length-keys ((j, v) ∷ m) = ap suc (length-keys m)

module _ {P W : Type 0} (g : Graph P W) (ends : EndsAreNodes g) where
  IsClosed-nodes : (start : String) → IsClosed g (start ∷ keys g.nodes)
  unfolding has_node
  IsClosed-nodes start x y _ s =
      contains-tail start y (keys g.nodes) (rw contains-keys (ends x y s))

  whole :
      (start : String)
      → Covers g ([], []) (search g (suc (suc (length g.nodes))) start ([], [])) (start ∷ [])
  whole start =
      search-Covers g (start ∷ keys g.nodes) (IsClosed-nodes start) (suc (suc (length g.nodes)))
        start ([], []) (contains-add_self start (keys g.nodes))
        (omega (arith, unseen-le (start ∷ keys g.nodes) [], length-keys g.nodes))

  logged :
      (start y : String)
      → contains (dfs start (λ _. true) g) y
        ≡ contains (search g (suc (suc (length g.nodes))) start ([], [])).0 y
  unfolding dfs
  logged start y = search-Logged g (suc (suc (length g.nodes))) start ([], []) (λ y. refl) y

  reached :
      (start y : String)
      → Reach g start y
      → contains (search g (suc (suc (length g.nodes))) start ([], [])).0 y ≡ true
  reached start y here = (whole start).hits start (contains-add_self start [])
  reached start y (next {b = b} r s) = elim ((whole start).closed b y (reached start b r) s) [
    | inl n ↦ absurd (not-contains-nil b n)
    | inr h ↦ h
  ]

  dfs-reached : (start y : String) → (contains (dfs start (λ _. true) g) y ≡ true) ↔ Reach g start y
  dfs-reached start y = (
    λ h. elim (search-Sound g (suc (suc (length g.nodes))) start y ([], []) (rw logged at h)) [
      | inl n ↦ absurd (not-contains-nil y n)
      | inr r ↦ r
    ],
    λ r. rw logged (reached start y r),
  )

  -- Any more rounds change nothing.
  more_fuel :
      (more : ℕ) (start : String)
      → search g (more + suc (suc (length g.nodes))) start ([], [])
        ≡ search g (suc (suc (length g.nodes))) start ([], [])
  more_fuel zero start = ap (λ k. search g k start ([], [])) (omega arith)
  more_fuel (suc more) start =
      let fuel = more + suc (suc (length g.nodes)) in
      let next : suc more + suc (suc (length g.nodes)) ≡ suc fuel = omega arith in
      ap (λ k. search g k start ([], [])) next
      ∙ search-stable g (start ∷ keys g.nodes) (IsClosed-nodes start) fuel start ([], [])
          (contains-add_self start (keys g.nodes))
          (omega (arith, unseen-le (start ∷ keys g.nodes) [], length-keys g.nodes))
      ∙ more_fuel more start

  -- In a graph whose edges lead to nodes, a depth-first search whose visitor never stops visits
  -- exactly the ids that are reached from the start along edges, and its recursion ends by itself:
  -- with any more fuel the visits are the same, in the same order.
  pub dfs-Reach :
      (start : String)
      → ((y : String) → (contains (dfs start (λ _. true) g) y ≡ true) ↔ Reach g start y)
        × ((more : ℕ)
            → (dfs_from (λ _. true) g (more + suc (suc (length g.nodes))) start ([], [])).1
              ≡ dfs start (λ _. true) g)
  unfolding dfs
  dfs-Reach start =
      (λ y. dfs-reached start y, λ more. ap (λ (w : Walk). w.1) (more_fuel more start))

contains-other_than :
    (id y : String) (ns : List String)
    → contains (other_than id ns) y ≡ (if str_eq id y then false else contains ns y)
unfolding contains other_than
contains-other_than id y [] = ground arith
contains-other_than id y (n ∷ ns) =
    ground (arith, eq_iff n id, eq_iff id y, eq_iff n y, contains-other_than id y ns)

-- In a graph whose edges lead to nodes, the transitive dependents of an id are the ids other than
-- it that are reached from it along edges, all of them and no others.
pub transitive_dependents-Reach :
    {P W : Type 0} (g : Graph P W)
    → EndsAreNodes g
    → (id y : String) → (contains (transitive_dependents id g) y ≡ true) ↔ ((y ≢ id) × Reach g id y)
unfolding transitive_dependents
transitive_dependents-Reach g ends id y = (
  λ h.
      let h' : contains (other_than id (dfs id (λ _. true) g)) y ≡ true =
        rw contains-sort_strings at h in
      let h'' : (if str_eq id y then false else contains (dfs id (λ _. true) g) y) ≡ true =
        rw contains-other_than at h' in
      (
        λ e. ground (arith, eq_iff id y, sym e),
        (dfs-reached g ends id y).0 (ground (arith, eq_iff id y)),
      ),
  λ h.
      rw (contains-sort_strings, contains-other_than)
        (ground (arith, eq_iff id y, h.0, (dfs-reached g ends id y).1 h.1)),
)
