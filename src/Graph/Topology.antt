-- ===== src/Graph/Topology.antt =====
-- internal/engine/graph/traversal.go: Kahn's algorithm. In-degrees are Go ints, which the loop may
-- take below 0.
pub mod Degrees
pub mod Waiting
pub mod Rounds
pub mod Sorting
pub mod Links
pub mod Built
use stair_platform.Prelude.{
  ℕ, zero, suc, String, Bool, true, false, Option, none, some, List, [], ◌∷◌, ◌++◌, ◌==◌,
  if◌then◌else◌, length, lookup, insert, sink, sort_strings, ℤ, pos, ◌+ℤ◌, ◌-ℤ◌, is_zero,
}
use stair_platform.Graph.{Edge, Graph, successors, count}
use mathlib.Core.List.{reverse}

abbrev pub Degrees : Type 0
Degrees = List (String × ℤ)

abbrev pub or_zero : Option ℤ → ℤ
or_zero none = pos 0
or_zero (some d) = d

-- `inDegree[id]`, where a missing entry reads 0.
unfoldable pub degree : String → Degrees → ℤ
degree id m = or_zero (lookup id m)

-- `for id := range g.nodes { inDegree[id] = 0 }`
unfoldable pub zeros {ℓ} : {V : Type ℓ} → List (String × V) → Degrees
zeros [] = []
zeros ((id, _) ∷ m) = insert id (pos 0) (zeros m)

-- `for _, e := range g.edges { inDegree[e.To]++ }`
unfoldable pub count_edges : {W : Type 0} → List (String × Edge W) → Degrees → Degrees
unfolding degree
count_edges [] m = m
count_edges ((_, e) ∷ es) m = count_edges es (insert e.to (degree e.to m +ℤ pos 1) m)

unfoldable pub in_degrees : {P W : Type 0} → Graph P W → Degrees
in_degrees g = count_edges g.edges (zeros g.nodes)

unfoldable pub sources : Degrees → List String
sources [] = []
sources ((id, d) ∷ m) = let rest = sources m in if is_zero d then id ∷ rest else rest

-- The id joins the sorted queue at its end and moves left past the greater ones.
unfoldable pub push_sorted : String → List String → List String
push_sorted s queue = reverse (sink s (reverse queue))

-- The loop over the successors of a node that left the queue.
unfoldable pub relax : List String → Degrees × List String → Degrees × List String
unfolding degree
relax [] w = w
relax (s ∷ ss) (deg, queue) =
    let d = degree s deg -ℤ pos 1 in
    relax ss (insert s d deg, if is_zero d then push_sorted s queue else queue)

module _ {P W : Type 0} where
  -- The loop over the queue, with a round of fuel for each id taken from it.
  unfoldable pub kahn : Graph P W → ℕ → Degrees → List String → List String → List String
  kahn g zero deg queue order = order
  kahn g (suc fuel) deg [] order = order
  kahn g (suc fuel) deg (id ∷ queue) order =
      let (deg', queue') = relax (successors id g) (deg, queue) in
      kahn g fuel deg' queue' (order ++ id ∷ [])

  -- An id enters the queue only as its degree reaches 0, so a round for each degree is enough.
  unfoldable pub kahn_order : Graph P W → List String
  kahn_order g =
      let deg = in_degrees g in kahn g (suc (length deg)) deg (sort_strings (sources deg)) []

  -- `none` is `ErrCycleDetected`.
  unfoldable pub topological_sort : Graph P W → Option (List String)
  topological_sort g =
      let order = kahn_order g in if length order == count g.nodes then some order else none

  unfoldable pub has_cycle : Graph P W → Bool
  has_cycle g = elim (topological_sort g) [ none ↦ true | some _ ↦ false ]
