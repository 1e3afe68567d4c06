-- ===== src/Graph.antt =====
-- internal/engine/graph/graph.go: the dependency graph. Payloads and weights are never inspected,
-- so their types `P` and `W` are parameters; versions and revisions are uint64.
pub mod Traversal
pub mod Topology
pub mod Plan
pub mod Snapshot
pub mod Search
pub mod Building
pub mod Keys
pub mod Removal
mod Examples
use stair_platform.Prelude.{
  ℕ, ◌+◌, ◌%◌, ◌^◌, String, Bool, true, false, not, ◌&&◌, Option, none, some, List, [], ◌∷◌, str_eq,
  if◌then◌else◌, length, lookup, insert, erase, add, remove, sort_strings, is_some,
}
use Prim.Native.String.{◌++◌ as concat}

abbrev pub state_dirty : String
state_dirty = "dirty"

abbrev pub state_clean : String
state_clean = "clean"

abbrev pub u64 : ℕ → ℕ
u64 n = n % 2 ^ 64

pub record Node (P : Type 0) : Type 0 where
  pub id : String
  pub type : String
  pub version : ℕ
  pub state : String
  pub payload : P
  pub metadata : List (String × String)

pub record Edge (W : Type 0) : Type 0 where
  pub id : String
  pub from : String
  pub to : String
  pub type : String
  pub weight : W
  pub metadata : List (String × String)

-- `map[string]map[string]struct{}`
abbrev pub Adjacency : Type 0
Adjacency = List (String × List String)

pub record Graph (P W : Type 0) : Type 0 where
  pub nodes : List (String × Node P)
  pub edges : List (String × Edge W)
  pub outgoing : Adjacency
  pub incoming : Adjacency
  pub revision : ℕ

-- `panic` is an assignment to an entry of a nil map.
pub data Outcome (A : Type 0) : Type 0 where
  ok : A → Outcome A
  error : Outcome A
  panic : Outcome A

-- A read of a missing inner set is the empty set.
abbrev pub or_empty : Option (List String) → List String
or_empty none = []
or_empty (some s) = s

-- `len(m)`
unfoldable pub count {ℓ} : {V : Type ℓ} → List (String × V) → ℕ
count m = length m

-- `m[a][b] = struct{}{}`
unfoldable pub link : String → String → Adjacency → Option Adjacency
link a b m = elim (lookup a m) [ none ↦ none | some s ↦ some (insert a (add b s) m) ]

-- `delete(m[a], b)`, which does nothing where there is no set.
unfoldable pub unlink : String → String → Adjacency → Adjacency
unlink a b m = elim (lookup a m) [ none ↦ m | some s ↦ insert a (remove b s) m ]

-- `from + "->" + to`
abbrev pub edge_key : String → String → String
edge_key from to = concat from (concat "->" to)

unfoldable pub new : {P W : Type 0} → Graph P W
new = record { nodes = []; edges = []; outgoing = []; incoming = []; revision = 0 }

module _ {W : Type 0} where
  -- `if e.ID == "" { e.ID = e.From + "->" + e.To }`
  unfoldable pub with_id : Edge W → Edge W
  with_id e = if str_eq e.id "" then record e { id = edge_key e.from e.to } else e

  -- The scan of `removeEdgeFrom`: the first edge in map order with the two ends.
  unfoldable pub scan : String → String → List (String × Edge W) → Option String
  scan from to [] = none
  scan from to ((id, e) ∷ es) =
      if str_eq e.from from && str_eq e.to to then some id else scan from to es

module _ {P W : Type 0} where
  -- The maps of a node get their entries together, guarded by `outgoing` alone.
  unfoldable pub add_node : Node P → Graph P W → Option (Graph P W)
  add_node n g =
      if str_eq n.id ""
      then none
      else let fresh = not (is_some (lookup n.id g.outgoing)) in
        some (record {
          nodes =
              insert n.id (record n { version = u64 (n.version + 1); state = state_dirty }) g.nodes;
          edges = g.edges;
          outgoing = if fresh then insert n.id [] g.outgoing else g.outgoing;
          incoming = if fresh then insert n.id [] g.incoming else g.incoming;
          revision = u64 (g.revision + 1);
        })

  unfoldable pub has_node : String → Graph P W → Bool
  has_node id g = is_some (lookup id g.nodes)

  unfoldable pub node : String → Graph P W → Option (Node P)
  node id g = lookup id g.nodes

  unfoldable pub add_edge : Edge W → Graph P W → Outcome (Graph P W)
  add_edge e g =
      if has_node e.from g && has_node e.to g
      then elim (link e.from e.to g.outgoing) [
        | none ↦ panic
        | some out ↦ elim (link e.to e.from g.incoming) [
          | none ↦ panic
          | some inc ↦ ok (record {
            nodes = g.nodes;
            edges = insert (with_id e).id (with_id e) g.edges;
            outgoing = out;
            incoming = inc;
            revision = u64 (g.revision + 1);
          })
        ]
      ]
      else error

  unfoldable pub edge : String → Graph P W → Option (Edge W)
  edge id g = lookup id g.edges

  -- The canonical key, or the key that the scan finds. The empty key counts as not found.
  unfoldable pub find_key : String → String → Graph P W → Option String
  find_key from to g =
      if is_some (lookup (edge_key from to) g.edges) && not (str_eq (edge_key from to) "")
      then some (edge_key from to)
      else elim (scan from to g.edges) [
        | none ↦ none
        | some id ↦ if str_eq id "" then none else some id
      ]

  -- What `removeEdgeFrom` writes once it has the key.
  unfoldable pub drop_edge : String → String → String → Graph P W → Graph P W
  drop_edge key from to g = record {
    nodes = g.nodes;
    edges = erase key g.edges;
    outgoing = unlink from to g.outgoing;
    incoming = unlink to from g.incoming;
    revision = u64 (g.revision + 1);
  }

  unfoldable pub remove_edge : String → String → Graph P W → Graph P W × Bool
  remove_edge from to g = elim (find_key from to g) [
    | none ↦ (g, false)
    | some key ↦ (drop_edge key from to g, true)
  ]

  -- `for from := range g.incoming[id] { g.removeEdgeFrom(from, id) }`
  unfoldable pub remove_incoming : String → List String → Graph P W → Graph P W
  remove_incoming id [] g = g
  remove_incoming id (from ∷ rest) g = remove_incoming id rest (remove_edge from id g).0

  unfoldable pub remove_outgoing : String → List String → Graph P W → Graph P W
  remove_outgoing id [] g = g
  remove_outgoing id (to ∷ rest) g = remove_outgoing id rest (remove_edge id to g).0

  -- The writes of `RemoveNode` after its edges are gone.
  unfoldable pub forget : String → Graph P W → Graph P W
  forget id g = record {
    nodes = erase id g.nodes;
    edges = g.edges;
    outgoing = erase id g.outgoing;
    incoming = erase id g.incoming;
    revision = u64 (g.revision + 1);
  }

  -- The incident edges go: the incoming ones first, then those that are still outgoing.
  unfoldable pub remove_incident : String → Graph P W → Graph P W
  remove_incident id g =
      let g' = remove_incoming id (or_empty (lookup id g.incoming)) g in
      remove_outgoing id (or_empty (lookup id g'.outgoing)) g'

  unfoldable pub remove_node : String → Graph P W → Graph P W × Bool
  remove_node id g = if has_node id g then (forget id (remove_incident id g), true) else (g, false)

  unfoldable pub successors : String → Graph P W → List String
  successors id g = sort_strings (or_empty (lookup id g.outgoing))

  unfoldable pub predecessors : String → Graph P W → List String
  predecessors id g = sort_strings (or_empty (lookup id g.incoming))

  unfoldable pub mark_clean : String → Graph P W → Graph P W
  mark_clean id g = elim (lookup id g.nodes) [
    | none ↦ g
    | some n ↦ record g { nodes = insert id (record n { state = state_clean }) g.nodes }
  ]

-- `range` over the keys of a map.
unfoldable pub keys {ℓ} : {V : Type ℓ} → List (String × V) → List String
keys [] = []
keys ((k, _) ∷ m) = k ∷ keys m

-- `out = append(out, g.nodes[id])` over the sorted keys, which are all present.
unfoldable pub gather {ℓ} : {V : Type ℓ} → List String → List (String × V) → List V
gather [] m = []
gather (k ∷ ks) m = let rest = gather ks m in elim (lookup k m) [ none ↦ rest | some v ↦ v ∷ rest ]

module _ {P : Type 0} where
  unfoldable pub dirty_ids : List (String × Node P) → List String
  dirty_ids [] = []
  dirty_ids ((id, n) ∷ m) =
      let rest = dirty_ids m in if str_eq n.state state_dirty then id ∷ rest else rest

module _ {P W : Type 0} where
  unfoldable pub nodes_sorted : Graph P W → List (Node P)
  nodes_sorted g = gather (sort_strings (keys g.nodes)) g.nodes

  unfoldable pub dirty_nodes : Graph P W → List String
  dirty_nodes g = sort_strings (dirty_ids g.nodes)
