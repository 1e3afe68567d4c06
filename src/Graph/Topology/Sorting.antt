-- ===== src/Graph/Topology/Sorting.antt =====
-- What `TopologicalSort` returns.
use stair_platform.Prelude.{
  suc, ◌≤◌, String, ◌≡◌, ap, ◌∙◌, ◌⊎◌, inl, inr, true, false, none, some, List, [], ◌∷◌, ◌++◌,
  arith, eq_iff, ◌==◌, if◌then◌else◌, Bool-cases, Option-cases, length, lookup, contains,
  contains-cons, contains-nil, sort_strings, pos, contains-append, not-contains-nil, contains-cases,
  occurs, occurs-sort_strings, contains-occurs, length-le, occurs-eq, is_some,
}
use stair_platform.Graph.{Graph, has_node, successors, keys, count}
use stair_platform.Graph.Search.{contains-keys, length-keys}
use stair_platform.Graph.Search.Fuel.{unseen-le}
use stair_platform.Graph.Topology.{in_degrees, sources, kahn_order, topological_sort}
use stair_platform.Graph.Topology.Degrees.{
  degree-in_degrees, occurs-first_queue, length-in_degrees, edges_to,
}
use stair_platform.Graph.Topology.Waiting.{zero_waiting}
use stair_platform.Graph.Topology.Rounds.{IsFaithful, IsForward, Inv, IsDone, waits, kahn-IsDone}

module _ {P W : Type 0} (g : Graph P W) where
  -- Every node once and nothing else, each behind all nodes that have an edge to it.
  pub record IsTopological (order : List String) : Type 0 where
    pub nodes_once : (x : String) → occurs x order ≡ (if has_node x g then 1 else 0)
    pub forward : IsForward g [] order

  module _ (ok : IsFaithful g) where
    no_edges : (x : String) → has_node x g ≡ false → edges_to x g.edges ≡ 0
    no_edges x n =
        ok.counted x
        ∙ zero_waiting (λ a. successors a g) [] x (keys g.nodes)
            (λ a m s. ground (arith, n, ok.ends a x s))

    start-Inv : Inv g (in_degrees g) (sort_strings (sources (in_degrees g))) []
    unfolding has_node occurs IsForward
    start-Inv = record {
      degrees = λ x n. degree-in_degrees g x ∙ ap pos (ok.counted x);
      placed = λ x.
          rw occurs-sort_strings (ground (arith, no_edges x, ok.counted x, occurs-first_queue g x));
      forward = tt;
    }

    kahn_order-IsDone : IsDone g (kahn_order g)
    unfolding kahn_order
    kahn_order-IsDone =
        kahn-IsDone g (suc (length (in_degrees g))) (in_degrees g)
          (sort_strings (sources (in_degrees g))) [] ok start-Inv
          (omega (arith, unseen-le (keys g.nodes) [], length-in_degrees g ok.unique_nodes))

    some_is_node : (a : String) → is_some (lookup a g.nodes) ≡ true → has_node a g ≡ true
    unfolding has_node
    some_is_node a n = n

    not_more : (x : String) → occurs x (kahn_order g) ≤ occurs x (keys g.nodes)
    unfolding has_node
    not_more x = ground (arith, kahn_order-IsDone.placed x, ok.unique_nodes x)

    complete_order : length (kahn_order g) ≡ count g.nodes → IsTopological (kahn_order g)
    unfolding count has_node
    complete_order h = record {
      nodes_once = λ x. ground (
        arith,
        occurs-eq (kahn_order g) (keys g.nodes) not_more (omega (arith, h, length-keys g.nodes)) x,
        ok.unique_nodes x,
      );
      forward = kahn_order-IsDone.forward;
    }

    -- A node that waits for nothing is done.
    waits_for_nothing :
        (x : String)
        → has_node x g ≡ true
        → ((a : String)
            → has_node a g ≡ true
            → contains (successors a g) x ≡ true
            → contains (kahn_order g) a ≡ true)
        → contains (kahn_order g) x ≡ true
    waits_for_nothing x n h =
        let none_left : waits g (kahn_order g) x ≡ 0 =
          zero_waiting (λ a. successors a g) (kahn_order g) x (keys g.nodes)
            (λ a m s. h a (some_is_node a (rw contains-keys at m)) s) in
        ground (arith, n, none_left, kahn_order-IsDone.placed x, contains-occurs x (kahn_order g))

    abbrev Preceded : List String → String → Type 0
    Preceded seen x =
        (a : String)
        → has_node a g ≡ true
        → contains (successors a g) x ≡ true
        → contains seen a ≡ true

    abbrev AllDone : List String → Type 0
    AllDone seen =
        (a : String)
        → has_node a g ≡ true
        → contains seen a ≡ true
        → contains (kahn_order g) a ≡ true

    seen_done :
        (seen : List String) (x : String)
        → Preceded seen x
        → AllDone seen
        → AllDone (seen ++ x ∷ [])
    seen_done seen x p h a n m = elim (Bool-cases (contains seen a)) [
      | inl old ↦ h a n old
      | inr new ↦
          let here : x ≡ a = ground (
            arith,
            m,
            new,
            contains-append seen (x ∷ []) a,
            contains-cons x a [],
            contains-nil a,
            eq_iff x a,
          ) in
          waits_for_nothing a n (λ b nb s. h b nb (p b nb (rw here s)))
    ]

    -- Whatever is forward behind done nodes is done.
    all_done : (seen xs : List String) → IsForward g seen xs → AllDone seen → AllDone xs
    unfolding IsForward
    all_done seen [] f h y n m = absurd (not-contains-nil y m)
    all_done seen (x ∷ xs) f h y n m = elim (contains-cases x y xs m) [
      | inl here ↦
          seen_done seen x f.0 h y n (
            ground (arith, here, contains-append seen (x ∷ []) y, contains-cons x y [], eq_iff x y))
      | inr later ↦ all_done (seen ++ x ∷ []) xs f.1 (seen_done seen x f.0 h) y n later
    ]

    every_node :
        (order : List String) (x : String)
        → AllDone order
        → occurs x order ≡ (if has_node x g then 1 else 0)
        → occurs x (keys g.nodes) ≤ occurs x (kahn_order g)
    unfolding has_node
    every_node order x all once = ground (
      arith,
      all x,
      once,
      ok.unique_nodes x,
      contains-occurs x order,
      contains-occurs x (kahn_order g),
    )

    order_exists :
        (order : List String) → IsTopological order → length (kahn_order g) ≡ count g.nodes
    unfolding count
    order_exists order t =
        let all : AllDone order =
          all_done [] order t.forward (λ a n m. absurd (not-contains-nil a m)) in
        let no_fewer : (x : String) → occurs x (keys g.nodes) ≤ occurs x (kahn_order g) =
          λ x. every_node order x all (t.nodes_once x) in
        omega (
          arith,
          length-keys g.nodes,
          length-le (keys g.nodes) (kahn_order g) no_fewer,
          length-le (kahn_order g) (keys g.nodes) not_more,
        )

  same_order :
      (order : List String)
      → (length (kahn_order g) == count g.nodes) ≡ true
      → topological_sort g ≡ some order
      → order ≡ kahn_order g
  unfolding topological_sort
  same_order order h e = ground arith

  pub sorted_order :
      IsFaithful g → (order : List String) → topological_sort g ≡ some order → IsTopological order
  unfolding topological_sort
  sorted_order ok order e = elim (Bool-cases (length (kahn_order g) == count g.nodes)) [
    | inl h ↦ rw (same_order order h e) (complete_order ok (ground (arith, h)))
    | inr h ↦ absurd (ground (arith, h, e))
  ]

  finds_order :
      IsFaithful g
      → (order : List String) → IsTopological order
      → topological_sort g ≡ some (kahn_order g)
  unfolding topological_sort
  finds_order ok order t = ground (arith, order_exists ok order t)

  -- In a faithful graph the sort either returns a topological order, or reports an error and the
  -- graph has none: no fuel runs out, and an error means a cycle.
  pub topological_sort-IsTopological :
      IsFaithful g
      → ((order : List String) × (topological_sort g ≡ some order) × IsTopological order)
        ⊎ ((topological_sort g ≡ none) × ((order : List String) → ¬ IsTopological order))
  topological_sort-IsTopological ok = elim (Option-cases (topological_sort g)) [
    | inl error ↦ inr (error, λ order t. ground (arith, error, finds_order ok order t))
    | inr (order, e) ↦ inl (order, e, sorted_order ok order e)
  ]
