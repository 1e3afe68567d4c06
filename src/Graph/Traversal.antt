-- ===== src/Graph/Traversal.antt =====
-- internal/engine/graph/traversal.go: depth-first and breadth-first search, and the transitive
-- dependents. A visitor's answer is a function of the id; the calls of the visitor are the log,
-- in order. The recursion of `dfs` takes fuel; `Search` shows how much is enough.
use stair_platform.Prelude.{
  ℕ, zero, suc, String, Bool, true, false, List, [], ◌∷◌, ◌++◌, str_eq, if◌then◌else◌, length,
  contains, sort_strings,
}
use stair_platform.Graph.{Graph, has_node, successors}

-- `seen` and the log of visited ids.
abbrev pub Walk : Type 0
Walk = List String × List String

-- `for _, s := range g.Successors(id) { g.dfs(s, seen, visit) }`
unfoldable pub each : (String → Walk → Walk) → List String → Walk → Walk
each f [] w = w
each f (s ∷ ss) w = each f ss (f s w)

-- `for n := range affected { if n != id { out = append(out, n) } }`
unfoldable pub other_than : String → List String → List String
other_than id [] = []
other_than id (n ∷ ns) = let rest = other_than id ns in if str_eq n id then rest else n ∷ rest

module _ {P W : Type 0} where
  unfoldable pub dfs_from : (String → Bool) → Graph P W → ℕ → String → Walk → Walk
  dfs_from visit g zero id w = w
  dfs_from visit g (suc fuel) id w = elim (contains w.0 id) [
    | true ↦ w
    | false ↦ elim (visit id) [
      | true ↦ each (dfs_from visit g fuel) (successors id g) (id ∷ w.0, w.1 ++ id ∷ [])
      | false ↦ (id ∷ w.0, w.1 ++ id ∷ [])
    ]
  ]

  -- The depth of the recursion is at most the number of nodes, the start apart.
  unfoldable pub dfs : String → (String → Bool) → Graph P W → List String
  dfs start visit g = (dfs_from visit g (suc (suc (length g.nodes))) start ([], [])).1

  -- Each visited node is logged once, so the log has the keys of `affected`.
  unfoldable pub transitive_dependents : String → Graph P W → List String
  transitive_dependents id g = sort_strings (other_than id (dfs id (λ _. true) g))

-- The inner loop of `BFS`: the unseen successors are marked and queued.
unfoldable pub enqueue : List String → List String × List String → List String × List String
enqueue [] w = w
enqueue (s ∷ ss) (seen, queue) =
    enqueue ss (if contains seen s then (seen, queue) else (s ∷ seen, queue ++ s ∷ []))

module _ {P W : Type 0} where
  -- The outer loop of `BFS`, with a round of fuel for each node taken from the queue.
  unfoldable pub bfs_loop :
      (String → Bool) → Graph P W → ℕ → List String → List String → List String → List String
  bfs_loop visit g zero seen queue log = log
  bfs_loop visit g (suc fuel) seen [] log = log
  bfs_loop visit g (suc fuel) seen (id ∷ queue) log = elim (visit id) [
    | false ↦ log ++ id ∷ []
    | true ↦
        let (seen', queue') = enqueue (successors id g) (seen, queue) in
        bfs_loop visit g fuel seen' queue' (log ++ id ∷ [])
  ]

  unfoldable pub bfs : String → (String → Bool) → Graph P W → List String
  bfs start visit g =
      if has_node start g
      then bfs_loop visit g (suc (length g.nodes)) (start ∷ []) (start ∷ []) []
      else []
