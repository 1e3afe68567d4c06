-- ===== src/Graph/Topology/Waiting.antt =====
-- The loop over the successors of a node, and how many nodes an id still waits for. `succ` gives
-- the successors of an id.
use stair_platform.Prelude.{
  ℕ, suc, ◌+◌, ◌≤◌, String, ◌≡◌, refl, true, false, not, ◌&&◌, List, [], ◌∷◌, ◌++◌, arith, str_eq,
  eq_iff, if◌then◌else◌, insert, contains, contains-cons, contains-nil, ℤ, pos, ◌-ℤ◌, is_zero,
  contains-append, contains-tail, occurs, occurs-reverse, occurs-sink, contains-occurs,
}
use stair_platform.Graph.Topology.{Degrees, degree, push_sorted, relax}
use stair_platform.Graph.Topology.Degrees.{degree-insert}

-- How many of the given nodes have an edge to `x` and are not done.
unfoldable pub waiting : (String → List String) → List String → String → List String → ℕ
waiting succ done x [] = 0
waiting succ done x (a ∷ us) =
    let rest = waiting succ done x us in
    if contains (succ a) x && not (contains done a) then suc rest else rest

module _ (succ : String → List String) where
  waiting_fresh :
      (done : List String) (id x : String) (us : List String)
      → occurs id us ≡ 0
      → waiting succ (done ++ id ∷ []) x us ≡ waiting succ done x us
  unfolding waiting occurs
  waiting_fresh done id x [] h = refl
  waiting_fresh done id x (a ∷ us) h = ground (
    arith,
    waiting_fresh done id x us,
    eq_iff a id,
    eq_iff id a,
    contains-append done (id ∷ []) a,
    contains-cons id a [],
    contains-nil a,
  )

  -- A node that is done is waited for no more, where there is an edge from it.
  pub waiting-append :
      (done : List String) (id x : String) (us : List String)
      → occurs id us ≡ 1
      → contains done id ≡ false
      → waiting succ (done ++ id ∷ []) x us + (if contains (succ id) x then 1 else 0)
        ≡ waiting succ done x us
  unfolding waiting occurs
  waiting-append done id x [] h n = ground arith
  waiting-append done id x (a ∷ us) h n = ground (
    arith,
    waiting-append done id x us,
    waiting_fresh done id x us,
    eq_iff a id,
    eq_iff id a,
    contains-append done (id ∷ []) a,
    contains-cons id a [],
    contains-nil a,
  )

  pub waiting_zero :
      (done : List String) (x : String) (us : List String) (a : String)
      → waiting succ done x us ≡ 0
      → contains us a ≡ true
      → contains (succ a) x ≡ true
      → contains done a ≡ true
  unfolding waiting contains
  waiting_zero done x [] a z m s = cc
  waiting_zero done x (b ∷ us) a z m s = ground (arith, waiting_zero done x us a, eq_iff b a)

  pub zero_waiting :
      (done : List String) (x : String) (us : List String)
      → ((a : String) → contains us a ≡ true → contains (succ a) x ≡ true → contains done a ≡ true)
      → waiting succ done x us ≡ 0
  unfolding waiting contains
  zero_waiting done x [] h = refl
  zero_waiting done x (a ∷ us) h =
      ground
        (arith, h a, eq_iff a a, zero_waiting done x us (λ b m s. h b (contains-tail a b us m) s))

occurs-push_sorted :
    (x s : String) (queue : List String) → occurs x (push_sorted s queue) ≡ occurs x (s ∷ queue)
unfolding push_sorted occurs
occurs-push_sorted x s queue =
    rw (occurs-reverse, occurs-sink) (ground (arith, occurs-reverse x queue))

tail_is_set :
    (s : String) (ss : List String)
    → ((y : String) → occurs y (s ∷ ss) ≤ 1)
    → (y : String) → occurs y ss ≤ 1
unfolding occurs
tail_is_set s ss h y = ground (arith, h y)

-- The queue after one successor.
pushed : String → ℤ → List String → List String
pushed s d queue = if is_zero d then push_sorted s queue else queue

occurs-pushed :
    (x s : String) (d : ℤ) (queue : List String)
    → occurs x (pushed s d queue) ≡ occurs x queue + (if str_eq s x && is_zero d then 1 else 0)
unfolding pushed occurs
occurs-pushed x s d queue = ground (arith, occurs-push_sorted x s queue)

-- What `relax` does to a degree, if the successors are a set.
pub degree-relax :
    (x : String) (ss : List String) (deg : Degrees) (queue : List String)
    → ((y : String) → occurs y ss ≤ 1)
    → degree x (relax ss (deg, queue)).0
      ≡ (if contains ss x then degree x deg -ℤ pos 1 else degree x deg)
unfolding relax contains occurs pushed
degree-relax x [] deg queue h = refl
degree-relax x (s ∷ ss) deg queue h =
    let d = degree s deg -ℤ pos 1 in
    ground (
      arith,
      h x,
      degree-relax x ss (insert s d deg) (pushed s d queue) (tail_is_set s ss h),
      degree-insert x s d deg,
      eq_iff s x,
      contains-occurs x ss,
    )

-- What `relax` does to the queue: a successor joins it as its degree becomes 0.
pub occurs-relax :
    (x : String) (ss : List String) (deg : Degrees) (queue : List String)
    → ((y : String) → occurs y ss ≤ 1)
    → occurs x (relax ss (deg, queue)).1
      ≡ occurs x queue + (if contains ss x && is_zero (degree x deg -ℤ pos 1) then 1 else 0)
unfolding relax contains occurs pushed
occurs-relax x [] deg queue h = omega arith
occurs-relax x (s ∷ ss) deg queue h =
    let d = degree s deg -ℤ pos 1 in
    ground (
      arith,
      h x,
      occurs-relax x ss (insert s d deg) (pushed s d queue) (tail_is_set s ss h),
      degree-insert x s d deg,
      eq_iff s x,
      contains-occurs x ss,
      occurs-pushed x s d queue,
    )
