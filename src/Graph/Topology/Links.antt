-- ===== src/Graph/Topology/Links.antt =====
-- How a new node and a new edge change what an id waits for.
use stair_platform.Prelude.{
  ◌+◌, String, ◌≡◌, refl, inl, inr, false, ◌&&◌, ◌||◌, List, [], ◌∷◌, ◌++◌, arith, str_eq, eq_iff,
  if◌then◌else◌, Bool-cases, lookup, insert, contains, occurs, is_some,
}
use stair_platform.Graph.{Edge, keys, with_id, new}
use stair_platform.Graph.Topology.Degrees.{edges_to}
use stair_platform.Graph.Topology.Waiting.{waiting}

pub waiting_ext :
    (f h : String → List String) (x : String) (us : List String)
    → ((a : String) → contains (f a) x ≡ contains (h a) x)
    → waiting f [] x us ≡ waiting h [] x us
unfolding waiting
waiting_ext f h x [] e = refl
waiting_ext f h x (a ∷ us) e = ground (arith, e a, waiting_ext f h x us e)

pub waiting-snoc :
    (f : String → List String) (x k : String) (us : List String)
    → waiting f [] x (us ++ k ∷ []) ≡ waiting f [] x us + (if contains (f k) x then 1 else 0)
unfolding waiting contains
waiting-snoc f x k [] = ground arith
waiting-snoc f x k (a ∷ us) = ground (arith, waiting-snoc f x k us)

-- One more successor of `from`.
pub waiting_linked :
    (f h : String → List String) (from to x : String) (us : List String)
    → contains (f from) to ≡ false
    → ((a : String) → contains (h a) x ≡ ((str_eq from a && str_eq to x) || contains (f a) x))
    → waiting h [] x us ≡ waiting f [] x us + (if str_eq to x then occurs from us else 0)
unfolding waiting occurs contains
waiting_linked f h from to x [] new e = ground arith
waiting_linked f h from to x (a ∷ us) new e =
    ground
      (arith, e a, eq_iff from a, eq_iff a from, eq_iff to x, waiting_linked f h from to x us new e)

pub keys-insert :
    {V : Type 0} (k : String) (v : V) (m : List (String × V))
    → keys (insert k v m) ≡ (if is_some (lookup k m) then keys m else keys m ++ k ∷ [])
unfolding keys insert lookup
keys-insert k v [] = refl
keys-insert k v ((j, w) ∷ m) = elim (Bool-cases (str_eq j k)) [
  | inl same ↦ ground (arith, eq_iff j k)
  | inr other ↦ ground (arith, keys-insert k v m)
]

pub edges_to-insert :
    {W : Type 0} (x id : String) (e : Edge W) (es : List (String × Edge W))
    → is_some (lookup id es) ≡ false
    → edges_to x (insert id e es) ≡ edges_to x es + (if str_eq e.to x then 1 else 0)
unfolding edges_to insert lookup
edges_to-insert x id e [] h = ground arith
edges_to-insert x id e ((j, d) ∷ es) h = ground (arith, edges_to-insert x id e es)

pub with_id_to : {W : Type 0} (e : Edge W) → (with_id e).to ≡ e.to
unfolding with_id
with_id_to e = ground arith
