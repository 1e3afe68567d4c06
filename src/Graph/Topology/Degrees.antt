-- ===== src/Graph/Topology/Degrees.antt =====
-- The in-degrees that Kahn's algorithm starts from, and its first queue.
use stair_platform.Prelude.{
  ℕ, suc, ◌+◌, ◌≤◌, String, ◌≡◌, refl, ap, ◌∙◌, inl, inr, true, false, not, ◌&&◌, ◌||◌, List, [],
  ◌∷◌, arith, str_eq, eq_iff, ◌==◌, if◌then◌else◌, Bool-cases, length, lookup, insert,
  lookup-insert, ℤ, pos, ◌+ℤ◌, is_zero, occurs, length-le, is_some,
}
use stair_platform.Graph.{Edge, Graph, keys}
use stair_platform.Graph.Search.{length-keys}
use stair_platform.Graph.Topology.{Degrees, degree, zeros, count_edges, in_degrees, sources}

-- How many edges lead to an id.
unfoldable pub edges_to : {W : Type 0} → String → List (String × Edge W) → ℕ
edges_to x [] = 0
edges_to x ((_, e) ∷ es) = if str_eq e.to x then suc (edges_to x es) else edges_to x es

plus_one : (n : ℕ) → pos n +ℤ pos 1 ≡ pos (suc n)
unfolding ◌+ℤ◌
plus_one n = ground arith

pub degree-insert :
    (x y : String) (d : ℤ) (m : Degrees)
    → degree x (insert y d m) ≡ (if str_eq y x then d else degree x m)
unfolding degree
degree-insert x y d m = ground (arith, lookup-insert y x d m)

degree-zeros : {V : Type 0} (x : String) (m : List (String × V)) → degree x (zeros m) ≡ pos 0
unfolding degree zeros lookup
degree-zeros x [] = refl
degree-zeros x ((id, v) ∷ m) =
    ground (arith, degree-zeros x m, lookup-insert id x (pos 0) (zeros m))

degree-count_edges :
    {W : Type 0} (x : String) (es : List (String × Edge W)) (m : Degrees) (n : ℕ)
    → degree x m ≡ pos n
    → degree x (count_edges es m) ≡ pos (n + edges_to x es)
unfolding count_edges edges_to
degree-count_edges x [] m n h = ground (arith, h)
degree-count_edges x ((k, e) ∷ es) m n h = elim (Bool-cases (str_eq e.to x)) [
  | inl q ↦
      let up : degree x (insert e.to (degree e.to m +ℤ pos 1) m) ≡ pos (suc n) =
        ground
          (arith, q, eq_iff e.to x, degree-insert x e.to (degree e.to m +ℤ pos 1) m, plus_one n) in
      degree-count_edges x es (insert e.to (degree e.to m +ℤ pos 1) m) (suc n) up
      ∙ ap pos (ground (arith, q))
  | inr q ↦
      let same : degree x (insert e.to (degree e.to m +ℤ pos 1) m) ≡ pos n =
        ground (arith, q, degree-insert x e.to (degree e.to m +ℤ pos 1) m) in
      degree-count_edges x es (insert e.to (degree e.to m +ℤ pos 1) m) n same
      ∙ ap pos (ground (arith, q))
]

-- Each id starts with the number of edges that lead to it.
pub degree-in_degrees :
    {P W : Type 0} (g : Graph P W) (x : String) → degree x (in_degrees g) ≡ pos (edges_to x g.edges)
unfolding in_degrees
degree-in_degrees g x =
    degree-count_edges x g.edges (zeros g.nodes) 0 (degree-zeros x g.nodes) ∙ ap pos (omega arith)

is_some-insert_any :
    (x y : String) (d : ℤ) (m : Degrees)
    → is_some (lookup x (insert y d m)) ≡ (str_eq y x || is_some (lookup x m))
is_some-insert_any x y d m = ground (arith, lookup-insert y x d m)

is_some-zeros :
    {V : Type 0} (x : String) (m : List (String × V))
    → is_some (lookup x (zeros m)) ≡ is_some (lookup x m)
unfolding zeros lookup
is_some-zeros x [] = refl
is_some-zeros x ((id, v) ∷ m) =
    ground (arith, is_some-zeros x m, is_some-insert_any x id (pos 0) (zeros m))

is_some-count_edges :
    {W : Type 0} (x : String) (es : List (String × Edge W)) (m : Degrees)
    → is_some (lookup x m) ≡ true
    → is_some (lookup x (count_edges es m)) ≡ true
unfolding count_edges
is_some-count_edges x [] m h = h
is_some-count_edges x ((k, e) ∷ es) m h =
    is_some-count_edges x es (insert e.to (degree e.to m +ℤ pos 1) m)
      (ground (arith, is_some-insert_any x e.to (degree e.to m +ℤ pos 1) m))

-- A degree that is there belongs to a node or to the end of an edge.
is_some-count_edges_inv :
    {W : Type 0} (x : String) (es : List (String × Edge W)) (m : Degrees)
    → edges_to x es ≡ 0
    → is_some (lookup x (count_edges es m)) ≡ is_some (lookup x m)
unfolding count_edges edges_to
is_some-count_edges_inv x [] m h = refl
is_some-count_edges_inv x ((k, e) ∷ es) m h = ground (
  arith,
  is_some-count_edges_inv x es (insert e.to (degree e.to m +ℤ pos 1) m),
  is_some-insert_any x e.to (degree e.to m +ℤ pos 1) m,
)

-- Each key stands once in the list of keys.
abbrev pub HasUniqueKeys : {V : Type 0} → List (String × V) → Type 0
HasUniqueKeys m = (x : String) → occurs x (keys m) ≡ (if is_some (lookup x m) then 1 else 0)

occurs-keys-insert :
    {V : Type 0} (x k : String) (v : V) (m : List (String × V))
    → occurs x (keys (insert k v m))
      ≡ occurs x (keys m) + (if is_some (lookup k m) || not (str_eq k x) then 0 else 1)
unfolding keys insert occurs lookup
occurs-keys-insert x k v [] = ground arith
occurs-keys-insert x k v ((j, w) ∷ m) =
    ground (arith, occurs-keys-insert x k v m, eq_iff j k, eq_iff j x, eq_iff k x)

pub insert-HasUniqueKeys :
    {V : Type 0} (k : String) (v : V) (m : List (String × V))
    → HasUniqueKeys m
    → HasUniqueKeys (insert k v m)
insert-HasUniqueKeys k v m h x =
    ground (arith, h x, h k, occurs-keys-insert x k v m, lookup-insert k x v m, eq_iff k x)

zeros-HasUniqueKeys : {V : Type 0} (m : List (String × V)) → HasUniqueKeys (zeros m)
unfolding zeros keys occurs lookup
zeros-HasUniqueKeys [] = λ x. refl
zeros-HasUniqueKeys ((id, v) ∷ m) =
    insert-HasUniqueKeys id (pos 0) (zeros m) (zeros-HasUniqueKeys m)

count_edges-HasUniqueKeys :
    {W : Type 0} (es : List (String × Edge W)) (m : Degrees)
    → HasUniqueKeys m
    → HasUniqueKeys (count_edges es m)
unfolding count_edges
count_edges-HasUniqueKeys [] m h = h
count_edges-HasUniqueKeys ((k, e) ∷ es) m h =
    count_edges-HasUniqueKeys es (insert e.to (degree e.to m +ℤ pos 1) m)
      (insert-HasUniqueKeys e.to (degree e.to m +ℤ pos 1) m h)

is_some-occurs :
    {V : Type 0} (x : String) (m : List (String × V))
    → is_some (lookup x m) ≡ (if occurs x (keys m) == 0 then false else true)
unfolding keys occurs lookup
is_some-occurs x [] = ground arith
is_some-occurs x ((k, v) ∷ m) = ground (arith, is_some-occurs x m)

HasUniqueKeys-tail :
    {V : Type 0} (k : String) (v : V) (m : List (String × V))
    → HasUniqueKeys ((k, v) ∷ m)
    → HasUniqueKeys m
unfolding keys occurs lookup
HasUniqueKeys-tail k v m h x = ground (arith, h x, is_some-occurs x m)

-- The sources are the keys with degree 0.
occurs-sources :
    (x : String) (m : Degrees)
    → HasUniqueKeys m
    → occurs x (sources m) ≡ (if is_some (lookup x m) && is_zero (degree x m) then 1 else 0)
unfolding sources keys occurs lookup degree
occurs-sources x [] h = refl
occurs-sources x ((k, d) ∷ m) h =
    ground (arith, h x, is_some-occurs x m, occurs-sources x m (HasUniqueKeys-tail k d m h))

-- If only nodes are ends of edges, the first queue holds each node without an edge to it once.
pub occurs-first_queue :
    {P W : Type 0} (g : Graph P W) (x : String)
    → (is_some (lookup x g.nodes) ≡ false → edges_to x g.edges ≡ 0)
    → occurs x (sources (in_degrees g))
      ≡ (if is_some (lookup x g.nodes) && edges_to x g.edges == 0 then 1 else 0)
unfolding in_degrees
occurs-first_queue g x h =
    let unique : HasUniqueKeys (in_degrees g) =
      count_edges-HasUniqueKeys g.edges (zeros g.nodes) (zeros-HasUniqueKeys g.nodes) in
    ground (
      arith,
      h,
      occurs-sources x (in_degrees g) unique,
      degree-in_degrees g x,
      is_some-zeros x g.nodes,
      is_some-count_edges x g.edges (zeros g.nodes),
      is_some-count_edges_inv x g.edges (zeros g.nodes),
    )

-- There are as many degrees as nodes, or more.
pub length-in_degrees :
    {P W : Type 0} (g : Graph P W)
    → HasUniqueKeys g.nodes
    → length (keys g.nodes) ≤ length (in_degrees g)
unfolding in_degrees
length-in_degrees g u =
    let unique : HasUniqueKeys (in_degrees g) =
      count_edges-HasUniqueKeys g.edges (zeros g.nodes) (zeros-HasUniqueKeys g.nodes) in
    omega (
      arith,
      length-keys (in_degrees g),
      length-le (keys g.nodes) (keys (in_degrees g)) (λ z. ground (
        arith,
        u z,
        unique z,
        is_some-zeros z g.nodes,
        is_some-count_edges z g.edges (zeros g.nodes),
      )),
    )
