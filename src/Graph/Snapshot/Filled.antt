-- ===== src/Graph/Snapshot/Filled.antt =====
-- The maps that `Restore` fills from the sorted lists of a snapshot.
use mathlib.Core.List.{map}
use stair_platform.Prelude.{
  String, ◌≡◌, refl, ◌∙◌, inl, inr, Bool, true, false, ◌&&◌, ◌||◌, none, some, List, [], ◌∷◌, arith,
  str_eq, eq_iff, if◌then◌else◌, Bool-cases, Option-cases, lookup, insert, lookup-insert, contains,
  contains-add, add, is_some, All, All_map,
}
use stair_platform.Graph.{Node, Edge, Adjacency, gather, keys, link, or_empty, edge_key}
use stair_platform.Graph.Keys.{is_plain, edge_key_ends}
use stair_platform.Graph.Removal.Keyed.{key_eq}
use stair_platform.Graph.Snapshot.{put_nodes, put_empty, put_edges, link_forward, link_backward}

-- Each value stands under its own id.
abbrev pub Own {ℓ} : {V : Type ℓ} → (V → String) → List (String × V) → Type ℓ
Own {V = V} id_of m = (k : String) (v : V) → lookup k m ≡ some v → id_of v ≡ k

pub contains-keys {ℓ} :
    {V : Type ℓ} (m : List (String × V)) (k : String) → contains (keys m) k ≡ is_some (lookup k m)
unfolding contains keys lookup
contains-keys [] k = refl
contains-keys ((j, v) ∷ m) k = ground (arith, contains-keys m k)

gather-nil {ℓ} : {V : Type ℓ} (m : List (String × V)) → gather [] m ≡ []
unfolding gather
gather-nil m = refl

gather-none {ℓ} :
    {V : Type ℓ} (j : String) (js : List String) (m : List (String × V))
    → lookup j m ≡ none
    → gather (j ∷ js) m ≡ gather js m
unfolding gather
gather-none j js m e = rw (e, gather) refl

gather-some {ℓ} :
    {V : Type ℓ} (j : String) (js : List String) (v : V) (m : List (String × V))
    → lookup j m ≡ some v
    → gather (j ∷ js) m ≡ v ∷ gather js m
unfolding gather
gather-some j js v m e = rw (e, gather) refl

module _ {P : Type 0} where
  pub lookup-put_nodes :
      (ks : List String) (all m : List (String × Node P)) (k : String)
      → Own (λ n. n.id) all
      → lookup k (put_nodes (gather ks all) m)
        ≡ (if contains ks k && is_some (lookup k all) then lookup k all else lookup k m)
  unfolding put_nodes contains
  lookup-put_nodes [] all m k own = rw gather-nil refl
  lookup-put_nodes (j ∷ js) all m k own = elim (Option-cases (lookup j all)) [
    | inl e ↦
        rw (gather-none j js all e)
          (lookup-put_nodes js all m k own ∙ ground (arith, e, eq_iff j k))
    | inr (n, e) ↦ rw (gather-some j js n all e) (
        lookup-put_nodes js all (insert n.id n m) k own
        ∙ ground (arith, e, own j n e, eq_iff j k, eq_iff n.id k, lookup-insert n.id k n m))
  ]

  pub lookup-put_empty :
      (ks : List String) (all : List (String × Node P)) (m : Adjacency) (k : String)
      → Own (λ n. n.id) all
      → lookup k (put_empty (gather ks all) m)
        ≡ (if contains ks k && is_some (lookup k all) then some [] else lookup k m)
  unfolding put_empty contains
  lookup-put_empty [] all m k own = rw gather-nil refl
  lookup-put_empty (j ∷ js) all m k own = elim (Option-cases (lookup j all)) [
    | inl e ↦
        rw (gather-none j js all e)
          (lookup-put_empty js all m k own ∙ ground (arith, e, eq_iff j k))
    | inr (n, e) ↦ rw (gather-some j js n all e) (
        lookup-put_empty js all (insert n.id [] m) k own
        ∙ ground (arith, e, own j n e, eq_iff j k, eq_iff n.id k, lookup-insert n.id k [] m))
  ]

pub All-gather {ℓ κ} :
    {V : Type ℓ} (P : V → Type κ) (js : List String) (m : List (String × V))
    → ((j : String) (v : V) → lookup j m ≡ some v → P v)
    → All P (gather js m)
All-gather P [] m each = rw gather-nil tt
All-gather P (j ∷ js) m each = elim (Option-cases (lookup j m)) [
  | inl e ↦ rw (gather-none j js m e) (All-gather P js m each)
  | inr (v, e) ↦ rw (gather-some j js v m e) (each j v e, All-gather P js m each)
]

link_lem :
    (a b : String) (set : List String) (m : Adjacency)
    → lookup a m ≡ some set
    → link a b m ≡ some (insert a (add b set) m)
unfolding link
link_lem a b set m h = rw (h, link) refl

All-map {ℓ κ μ} :
    {A : Type ℓ} {B : Type κ} (g : A → B) (P : B → Type μ) (xs : List A)
    → All (λ x. P (g x)) xs
    → All P (map g xs)
All-map g P [] a = tt
All-map g P (x ∷ xs) a = (a.0, All-map g P xs a.1)

module _ {W : Type 0} where
  pub lookup-put_edges :
      (ks : List String) (all m : List (String × Edge W)) (k : String)
      → Own (λ n. n.id) all
      → lookup k (put_edges (gather ks all) m)
        ≡ (if contains ks k && is_some (lookup k all) then lookup k all else lookup k m)
  unfolding put_edges contains
  lookup-put_edges [] all m k own = rw gather-nil refl
  lookup-put_edges (j ∷ js) all m k own = elim (Option-cases (lookup j all)) [
    | inl e ↦
        rw (gather-none j js all e)
          (lookup-put_edges js all m k own ∙ ground (arith, e, eq_iff j k))
    | inr (n, e) ↦ rw (gather-some j js n all e) (
        lookup-put_edges js all (insert n.id n m) k own
        ∙ ground (arith, e, own j n e, eq_iff j k, eq_iff n.id k, lookup-insert n.id k n m))
  ]

  -- Some edge of the list leads from the one id to the other.
  unfoldable pub joins : List (Edge W) → String → String → Bool
  joins [] a b = false
  joins (e ∷ es) a b = str_eq e.from a && str_eq e.to b || joins es a b

  abbrev turned : Edge W → Edge W
  turned e = record e { from = e.to; to = e.from }

  link_some :
      (e : Edge W) (es : List (Edge W)) (set : List String) (m : Adjacency)
      → lookup e.from m ≡ some set
      → link_forward (e ∷ es) m ≡ link_forward es (insert e.from (add e.to set) m)
  unfolding link_forward
  link_some e es set m h = rw (link_lem e.from e.to set m h, link_forward) refl

  pub link_forward_lem :
      (es : List (Edge W)) (m : Adjacency)
      → All (λ (e : Edge W). is_some (lookup e.from m) ≡ true) es
      → (m' : Adjacency) × (link_forward es m ≡ some m')
        × ((a b : String)
            → contains (or_empty (lookup a m')) b
              ≡ (joins es a b || contains (or_empty (lookup a m)) b))
  unfolding link_forward joins
  link_forward_lem [] m all = (m, refl, λ a b. refl)
  link_forward_lem (e ∷ es) m all = elim (Option-cases (lookup e.from m)) [
    | inl h ↦ absurd (ground (arith, h, all.0))
    | inr (set, h) ↦
        let m1 = insert e.from (add e.to set) m in
        let (m', done, each) = link_forward_lem es m1 (
          All_map
            (λ (x : Edge W) y. ground (arith, y, lookup-insert e.from x.from (add e.to set) m)) es
            all.1) in
        (
          m',
          rw (link_some e es set m h) done,
          λ a b.
              each a b
              ∙ ground (
                arith,
                h,
                eq_iff e.from a,
                eq_iff e.to b,
                lookup-insert e.from a (add e.to set) m,
                contains-add e.to b set,
              ),
        )
  ]

  turned_lem :
      (es : List (Edge W)) (m : Adjacency) → link_backward es m ≡ link_forward (map turned es) m
  unfolding link_backward link_forward
  turned_lem [] m = refl
  turned_lem (e ∷ es) m = elim (Option-cases (link e.to e.from m)) [
    | inl h ↦ rw (h, link_backward, link_forward) refl
    | inr (m1, h) ↦ rw (h, link_backward, link_forward) (turned_lem es m1)
  ]

  joins-turned : (es : List (Edge W)) (a b : String) → joins (map turned es) b a ≡ joins es a b
  unfolding joins
  joins-turned [] a b = refl
  joins-turned (e ∷ es) a b = ground (arith, joins-turned es a b)

  pub link_backward_lem :
      (es : List (Edge W)) (m : Adjacency)
      → All (λ (e : Edge W). is_some (lookup e.to m) ≡ true) es
      → (m' : Adjacency) × (link_backward es m ≡ some m')
        × ((a b : String)
            → contains (or_empty (lookup b m')) a
              ≡ (joins es a b || contains (or_empty (lookup b m)) a))
  link_backward_lem es m all =
      let (m', done, each) =
        link_forward_lem (map turned es) m
          (All-map turned (λ (e : Edge W). is_some (lookup e.from m) ≡ true) es all) in
      (m', turned_lem es m ∙ done, λ a b. each b a ∙ ground (arith, joins-turned es a b))

  -- Each edge stands under the key of its ends, the first of which has no dash.
  abbrev pub Canonic : List (String × Edge W) → Type 0
  Canonic all =
      (j : String) (e : Edge W)
      → lookup j all ≡ some e
      → (j ≡ edge_key e.from e.to) × (is_plain e.from ≡ true)

  same_ends :
      (e : Edge W) (a b : String)
      → is_plain e.from ≡ true
      → is_plain a ≡ true
      → (str_eq e.from a && str_eq e.to b) ≡ str_eq (edge_key e.from e.to) (edge_key a b)
  same_ends e a b p q = elim (Bool-cases (str_eq (edge_key e.from e.to) (edge_key a b))) [
    | inl h ↦
        let (i, j) =
          edge_key_ends e.from e.to a b p q
            (ground (arith, h, eq_iff (edge_key e.from e.to) (edge_key a b))) in
        rw h (ground (arith, i, j, eq_iff e.from a, eq_iff e.to b))
    | inr h ↦ rw h (key_eq e.from e.to a b h)
  ]

  pub joins-gather :
      (js : List String) (all : List (String × Edge W)) (a b : String)
      → Canonic all
      → is_plain a ≡ true
      → joins (gather js all) a b
        ≡ (contains js (edge_key a b) && is_some (lookup (edge_key a b) all))
  unfolding joins contains
  joins-gather [] all a b c p = rw gather-nil refl
  joins-gather (j ∷ js) all a b c p = elim (Option-cases (lookup j all)) [
    | inl e ↦
        rw (gather-none j js all e)
          (joins-gather js all a b c p ∙ ground (arith, e, eq_iff j (edge_key a b)))
    | inr (v, e) ↦
        let (k, q) = c j v e in
        rw (gather-some j js v all e) (
          ground (
            arith,
            same_ends v a b q p,
            joins-gather js all a b c p,
            k,
            e,
            eq_iff j (edge_key a b),
            eq_iff (edge_key v.from v.to) (edge_key a b),
          ))
  ]

  pub joins-not_plain :
      (js : List String) (all : List (String × Edge W)) (a b : String)
      → Canonic all
      → is_plain a ≡ false
      → joins (gather js all) a b ≡ false
  unfolding joins
  joins-not_plain [] all a b c p = rw gather-nil refl
  joins-not_plain (j ∷ js) all a b c p = elim (Option-cases (lookup j all)) [
    | inl e ↦ rw (gather-none j js all e) (joins-not_plain js all a b c p)
    | inr (v, e) ↦
        let (k, q) = c j v e in
        rw (gather-some j js v all e)
          (ground (arith, joins-not_plain js all a b c p, q, p, eq_iff v.from a))
  ]
