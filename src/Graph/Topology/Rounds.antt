-- ===== src/Graph/Topology/Rounds.antt =====
-- The rounds of Kahn's algorithm: its invariant, and that its fuel is enough.
use stair_platform.Prelude.{
  ℕ, zero, suc, ◌+◌, ◌≤◌, ◌<◌, String, ◌≡◌, true, false, ◌&&◌, List, [], ◌∷◌, ◌++◌, arith, eq_iff,
  ◌==◌, if◌then◌else◌, lookup, contains, contains-cons, pos, ◌-ℤ◌, contains-append, occurs,
  occurs-append, contains-occurs, is_some,
}
use stair_platform.Graph.{Graph, has_node, successors, keys}
use mathlib.Core.List.{append-nil, append_assoc}
use stair_platform.Graph.Search.{EndsAreNodes, contains-keys}
use stair_platform.Graph.Search.Fuel.{unseen, unseen_mono, unseen-cons}
use stair_platform.Graph.Topology.{Degrees, degree, relax, kahn}
use stair_platform.Graph.Topology.Degrees.{edges_to, HasUniqueKeys}
use stair_platform.Graph.Topology.Waiting.{
  waiting, waiting-append, waiting_zero, degree-relax, occurs-relax,
}

module _ {P W : Type 0} (g : Graph P W) where
  -- The nodes that an id waits for, while `done` are done.
  abbrev pub waits : List String → String → ℕ
  waits done x = waiting (λ a. successors a g) done x (keys g.nodes)

  -- What the maps of a graph have to agree on: a node stands once, successors are sets of nodes,
  -- and as many edges lead to an id as it is a successor of nodes.
  pub record IsFaithful : Type 0 where
    pub unique_nodes : HasUniqueKeys g.nodes
    pub sets : (a x : String) → occurs x (successors a g) ≤ 1
    pub ends : EndsAreNodes g
    pub counted : (x : String) → edges_to x g.edges ≡ waits [] x

  -- Behind `seen`, each id of the list comes after all nodes that it is a successor of.
  unfoldable pub IsForward : List String → List String → Type 0
  IsForward seen [] = Unit
  IsForward seen (x ∷ xs) =
      ((a : String)
        → has_node a g ≡ true
        → contains (successors a g) x ≡ true
        → contains seen a ≡ true)
      × IsForward (seen ++ x ∷ []) xs

  pub IsForward-append :
      (seen xs : List String) (x : String)
      → IsForward seen xs
      → ((a : String)
          → has_node a g ≡ true
          → contains (successors a g) x ≡ true
          → contains (seen ++ xs) a ≡ true)
      → IsForward seen (xs ++ x ∷ [])
  unfolding IsForward
  IsForward-append seen [] x f h = ((λ a n s. rw append-nil at (h a n s)), tt)
  IsForward-append seen (y ∷ xs) x f h =
      (f.0, IsForward-append (seen ++ y ∷ []) xs x f.1 (λ a n s. rw append_assoc (h a n s)))

  pub record Inv (deg : Degrees) (queue order : List String) : Type 0 where
    pub degrees : (x : String) → has_node x g ≡ true → degree x deg ≡ pos (waits order x)
    pub placed :
        (x : String)
        → occurs x order + occurs x queue ≡ (if has_node x g && waits order x == 0 then 1 else 0)
    pub forward : IsForward [] order

  -- What the head of the queue is like.
  abbrev Ready : String → List String → List String → Type 0
  Ready id queue order =
      (has_node id g ≡ true)
      × (waits order id ≡ 0)
      × (occurs id order ≡ 0)
      × (contains order id ≡ false)

  head-Ready :
      (deg : Degrees) (id : String) (queue order : List String)
      → Inv deg (id ∷ queue) order
      → Ready id queue order
  unfolding occurs
  head-Ready deg id queue order i =
      ground (arith, i.placed id, eq_iff id id, contains-occurs id order)

  node_is_some : (a : String) → has_node a g ≡ true → is_some (lookup a g.nodes) ≡ true
  unfolding has_node
  node_is_some a n = n

  pos_minus_one : (n : ℕ) → pos (n + 1) -ℤ pos 1 ≡ pos n
  unfolding ◌-ℤ◌
  pos_minus_one n = ground arith

  module _ (ok : IsFaithful) (deg : Degrees) (id : String) (queue order : List String)
      (i : Inv deg (id ∷ queue) order) where
    -- Once the head is done, its successors wait for one node less.
    waits_less :
        (x : String)
        → waits (order ++ id ∷ []) x + (if contains (successors id g) x then 1 else 0)
          ≡ waits order x
    unfolding has_node
    waits_less x =
        let ready = head-Ready deg id queue order i in
        waiting-append (λ a. successors a g) order id x (keys g.nodes)
          (ground (arith, ok.unique_nodes id, ready)) ready.3

    round_degrees :
        (x : String)
        → has_node x g ≡ true
        → degree x (relax (successors id g) (deg, queue)).0 ≡ pos (waits (order ++ id ∷ []) x)
    round_degrees x n = ground (
      arith,
      waits_less x,
      i.degrees x,
      pos_minus_one (waits (order ++ id ∷ []) x),
      degree-relax x (successors id g) deg queue (ok.sets id),
    )

    round_placed :
        (x : String)
        → occurs x (order ++ id ∷ []) + occurs x (relax (successors id g) (deg, queue)).1
          ≡ (if has_node x g && waits (order ++ id ∷ []) x == 0 then 1 else 0)
    unfolding occurs
    round_placed x = ground (
      arith,
      waits_less x,
      i.degrees x,
      i.placed x,
      ok.ends id x,
      pos_minus_one (waits (order ++ id ∷ []) x),
      occurs-append x order (id ∷ []),
      occurs-relax x (successors id g) deg queue (ok.sets id),
    )

    round-Inv :
        Inv
          (relax (successors id g) (deg, queue)).0
          (relax (successors id g) (deg, queue)).1
          (order ++ id ∷ [])
    round-Inv = record {
      degrees = round_degrees;
      placed = round_placed;
      forward = IsForward-append [] order id i.forward (λ a n s.
          waiting_zero (λ b. successors b g) order id (keys g.nodes) a
            (head-Ready deg id queue order i).1 (rw contains-keys (node_is_some a n)) s);
    }

  -- What is left when the queue is empty.
  pub record IsDone (order : List String) : Type 0 where
    pub placed :
        (x : String) → occurs x order ≡ (if has_node x g && waits order x == 0 then 1 else 0)
    pub forward : IsForward [] order

  seen_more :
      (id y : String) (order : List String)
      → contains (id ∷ order) y ≡ true
      → contains (order ++ id ∷ []) y ≡ true
  seen_more id y order h =
      ground
        (arith, contains-append order (id ∷ []) y, contains-cons id y order, contains-cons id y [])

  fewer_left :
      (deg : Degrees) (id : String) (queue order : List String)
      → Inv deg (id ∷ queue) order
      → unseen (keys g.nodes) (order ++ id ∷ []) < unseen (keys g.nodes) order
  fewer_left deg id queue order i =
      let ready = head-Ready deg id queue order i in
      omega (
        arith,
        unseen-cons (keys g.nodes) order id (rw contains-keys (node_is_some id ready.0)) ready.3,
        unseen_mono (keys g.nodes) (id ∷ order) (order ++ id ∷ []) (λ y. seen_more id y order),
      )

  pub kahn-IsDone :
      (fuel : ℕ) (deg : Degrees) (queue order : List String)
      → IsFaithful
      → Inv deg queue order
      → unseen (keys g.nodes) order < fuel
      → IsDone (kahn g fuel deg queue order)
  unfolding kahn occurs
  kahn-IsDone zero deg queue order ok i h = absurd (omega arith)
  kahn-IsDone (suc fuel) deg [] order ok i h = record {
    placed = λ x. ground (arith, i.placed x);
    forward = i.forward;
  }
  kahn-IsDone (suc fuel) deg (id ∷ queue) order ok i h =
      kahn-IsDone fuel (relax (successors id g) (deg, queue)).0
        (relax (successors id g) (deg, queue)).1 (order ++ id ∷ []) ok
        (round-Inv ok deg id queue order i) (omega (arith, fewer_left deg id queue order i))
