-- ===== src/Graph/Removal/Maps.antt =====
-- What the deletions do to the maps of a graph.
use stair_platform.Prelude.{
  ◌+◌, ◌≤◌, String, ◌≡◌, refl, inl, inr, true, List, [], ◌∷◌, arith, str_eq, eq_iff, if◌then◌else◌,
  Bool-cases, Option-cases, lookup, insert, erase, lookup-insert, lookup-erase, remove, occurs,
  is_some, All,
}
use stair_platform.Graph.{Edge, Adjacency, or_empty, unlink, keys}
use stair_platform.Graph.Topology.Degrees.{edges_to, HasUniqueKeys}

pub or_empty-unlink :
    (a b x : String) (m : Adjacency)
    → or_empty (lookup x (unlink a b m))
      ≡ (if str_eq a x then remove b (or_empty (lookup a m)) else or_empty (lookup x m))
unfolding unlink remove
or_empty-unlink a b x m = elim (Option-cases (lookup a m)) [
  | inl e ↦ ground (arith, e, eq_iff a x)
  | inr (s, e) ↦ rw (e, unlink) (ground (arith, lookup-insert a x (remove b s) m))
]

pub is_some-unlink :
    (a b x : String) (m : Adjacency) → is_some (lookup x (unlink a b m)) ≡ is_some (lookup x m)
unfolding unlink
is_some-unlink a b x m = elim (Option-cases (lookup a m)) [
  | inl e ↦ rw (e, unlink) refl
  | inr (s, e) ↦ rw (e, unlink) (ground (arith, e, eq_iff a x, lookup-insert a x (remove b s) m))
]

pub occurs-remove : (x b : String) (s : List String) → occurs x (remove b s) ≤ occurs x s
unfolding remove occurs
occurs-remove x b [] = omega arith
occurs-remove x b (y ∷ s) = ground (arith, occurs-remove x b s)

occurs-keys-erase :
    {V : Type 0} (x k : String) (m : List (String × V))
    → occurs x (keys (erase k m)) ≡ (if str_eq k x then 0 else occurs x (keys m))
unfolding keys erase occurs
occurs-keys-erase x k [] = ground arith
occurs-keys-erase x k ((j, v) ∷ m) =
    ground (arith, occurs-keys-erase x k m, eq_iff j k, eq_iff j x, eq_iff k x)

pub erase-HasUniqueKeys :
    {V : Type 0} (k : String) (m : List (String × V)) → HasUniqueKeys m → HasUniqueKeys (erase k m)
erase-HasUniqueKeys k m u x = ground (arith, u x, occurs-keys-erase x k m, lookup-erase k x m)

pub erase-All :
    {V : Type 0} (Good : String × V → Type 0) (k : String) (m : List (String × V))
    → All Good m
    → All Good (erase k m)
unfolding erase
erase-All Good k [] a = tt
erase-All Good k ((j, v) ∷ m) a = elim (Bool-cases (str_eq j k)) [
  | inl e ↦ rw (e, erase) (erase-All Good k m a.1)
  | inr e ↦ rw (e, erase) (a.0, erase-All Good k m a.1)
]

pub insert-All :
    {V : Type 0} (Good : String × V → Type 0) (k : String) (w : V) (m : List (String × V))
    → All Good m
    → Good (k, w)
    → All Good (insert k w m)
unfolding insert
insert-All Good k w [] a g = (g, tt)
insert-All Good k w ((j, v) ∷ m) a g = elim (Bool-cases (str_eq j k)) [
  | inl e ↦ rw (e, insert) (g, a.1)
  | inr e ↦ rw (e, insert) (a.0, insert-All Good k w m a.1 g)
]

module _ {W : Type 0} where
  -- The entries of a key have the ends that the key tells.
  abbrev pub EndsAt : String → String → String → String × Edge W → Type 0
  EndsAt key from to p = p.0 ≡ key → (p.1.from ≡ from) × (p.1.to ≡ to)

  pub edges_to-erase :
      (x key from to : String) (es : List (String × Edge W))
      → All (EndsAt key from to) es
      → edges_to x es
        ≡ edges_to x (erase key es) + (if str_eq to x then occurs key (keys es) else 0)
  unfolding edges_to erase keys occurs
  edges_to-erase x key from to [] a = ground arith
  edges_to-erase x key from to ((j, e) ∷ es) a = elim (Bool-cases (str_eq j key)) [
    | inl same ↦
        let here : e.to ≡ to = (a.0 ((eq_iff j key).0 same)).1 in
        ground (arith, same, here, edges_to-erase x key from to es a.1)
    | inr other ↦ ground (arith, other, edges_to-erase x key from to es a.1)
  ]

  -- An edge that is written again counts once.
  pub edges_to-reinsert :
      (x key from to : String) (e : Edge W) (es : List (String × Edge W))
      → All (EndsAt key from to) es
      → e.to ≡ to
      → is_some (lookup key es) ≡ true
      → edges_to x (insert key e es) ≡ edges_to x es
  unfolding edges_to insert lookup
  edges_to-reinsert x key from to e [] a t h = ground arith
  edges_to-reinsert x key from to e ((j, d) ∷ es) a t h = elim (Bool-cases (str_eq j key)) [
    | inl same ↦
        let here : d.to ≡ to = (a.0 ((eq_iff j key).0 same)).1 in ground (arith, same, here, t)
    | inr other ↦
        ground (arith, other, edges_to-reinsert x key from to e es a.1 t (ground (arith, other)))
  ]
