-- ===== src/Graph/Snapshot/Owned.antt =====
-- The ids under which the nodes and edges of a graph stand.
use stair_platform.Prelude.{
  ◌+◌, String, ◌≡◌, sym, ap, ◌∙◌, inl, inr, true, ◌&&◌, some, List, [], ◌∷◌, arith, str_eq, eq_iff,
  Bool-cases, Option-cases, lookup, insert, erase, lookup-insert, lookup-erase, All,
}
use stair_platform.Graph.{
  Graph, ok, new, has_node, add_node, add_edge, remove_edge, remove_node, find_key, drop_edge,
  remove_incoming, remove_outgoing, remove_incident, forget, or_empty, with_id, u64, state_dirty,
}
use stair_platform.Graph.Building.{added, linked, add_edge-linked}
use stair_platform.Graph.Removal.Keyed.{Keyed}
use stair_platform.Graph.Removal.Updates.{
  Update, put_node, put_edge, cut_edge, cut_node, apply, apply_all, all_simple, apply-Keyed,
}
use stair_platform.Graph.Snapshot.Filled.{Own}

insert-Own {ℓ} :
    {V : Type ℓ} (id_of : V → String) (v : V) (m : List (String × V))
    → Own id_of m
    → Own id_of (insert (id_of v) v m)
insert-Own id_of v m own k w h = elim (Bool-cases (str_eq (id_of v) k)) [
  | inl same ↦
      let e : v ≡ w = ground (arith, h, lookup-insert (id_of v) k v m, same) in
      ap id_of (sym e) ∙ (eq_iff (id_of v) k).0 same
  | inr other ↦ own k w (ground (arith, h, lookup-insert (id_of v) k v m, other))
]

erase-Own {ℓ} :
    {V : Type ℓ} (id_of : V → String) (j : String) (m : List (String × V))
    → Own id_of m
    → Own id_of (erase j m)
erase-Own id_of j m own k w h = own k w (ground (arith, h, lookup-erase j k m))

pub lookup-All {ℓ κ} :
    {V : Type ℓ} (P : String × V → Type κ) (m : List (String × V)) (k : String) (v : V)
    → All P m
    → lookup k m ≡ some v
    → P (k, v)
unfolding lookup
lookup-All P [] k v a h = absurd (ground (arith, h))
lookup-All P ((j, w) ∷ m) k v a h = elim (Bool-cases (str_eq j k)) [
  | inl same ↦
      let i : j ≡ k = (eq_iff j k).0 same in
      let e : w ≡ v = ground (arith, rw same at h) in rw (sym i, sym e) a.0
  | inr other ↦ lookup-All P m k v a.1 (rw other at h)
]

module _ {P W : Type 0} where
  -- Nodes and edges stand under their own ids.
  pub record IsOwn (g : Graph P W) : Type 0 where
    pub nodes : Own (λ n. n.id) g.nodes
    pub edges : Own (λ e. e.id) g.edges

  remove_edge-Own : (from to : String) (g : Graph P W) → IsOwn g → IsOwn (remove_edge from to g).0
  unfolding remove_edge drop_edge
  remove_edge-Own from to g o = elim (Option-cases (find_key from to g)) [
    | inl e ↦ rw (e, remove_edge) o
    | inr (key, e) ↦
        rw (e, remove_edge)
          (record { nodes = o.nodes; edges = erase-Own (λ e. e.id) key g.edges o.edges })
  ]

  remove_incoming-Own :
      (id : String) (ids : List String) (g : Graph P W) → IsOwn g → IsOwn (remove_incoming id ids g)
  unfolding remove_incoming
  remove_incoming-Own id [] g o = o
  remove_incoming-Own id (from ∷ ids) g o =
      remove_incoming-Own id ids (remove_edge from id g).0 (remove_edge-Own from id g o)

  remove_outgoing-Own :
      (id : String) (ids : List String) (g : Graph P W) → IsOwn g → IsOwn (remove_outgoing id ids g)
  unfolding remove_outgoing
  remove_outgoing-Own id [] g o = o
  remove_outgoing-Own id (to ∷ ids) g o =
      remove_outgoing-Own id ids (remove_edge id to g).0 (remove_edge-Own id to g o)

  remove_incident-Own : (id : String) (g : Graph P W) → IsOwn g → IsOwn (remove_incident id g)
  unfolding remove_incident
  remove_incident-Own id g o =
      let g' = remove_incoming id (or_empty (lookup id g.incoming)) g in
      remove_outgoing-Own id (or_empty (lookup id g'.outgoing)) g'
        (remove_incoming-Own id (or_empty (lookup id g.incoming)) g o)

  forget-Own : (id : String) (g : Graph P W) → IsOwn g → IsOwn (forget id g)
  unfolding forget
  forget-Own id g o = record { nodes = erase-Own (λ n. n.id) id g.nodes o.nodes; edges = o.edges }

  remove_node-Own : (id : String) (g : Graph P W) → IsOwn g → IsOwn (remove_node id g).0
  unfolding remove_node
  remove_node-Own id g o = elim (Bool-cases (has_node id g)) [
    | inl e ↦ rw e (forget-Own id (remove_incident id g) (remove_incident-Own id g o))
    | inr e ↦ rw e o
  ]

  pub ok_inj : {g g' : Graph P W} → ok g ≡ ok g' → g ≡ g'
  ok_inj h = cc

  pub apply-Own :
      (u : Update P W) (g g' : Graph P W) → IsOwn g → Keyed g → apply u g ≡ ok g' → IsOwn g'
  unfolding apply add_node add_edge
  apply-Own (put_node n) g g' o k h = elim (Bool-cases (str_eq n.id "")) [
    | inl e ↦ rw (sym (ok_inj {g = g} {g' = g'} (rw (e, apply, add_node) at h))) o
    | inr e ↦ rw (sym (ok_inj {g = added n g} {g' = g'} (rw (e, apply, add_node) at h))) (record {
      nodes =
          insert-Own (λ n. n.id) (record n { version = u64 (n.version + 1); state = state_dirty })
            g.nodes o.nodes;
      edges = o.edges;
    })
  ]
  apply-Own (put_edge e) g g' o k h = elim (Bool-cases (has_node e.from g && has_node e.to g)) [
    | inl ends ↦
        let from : has_node e.from g ≡ true = ground arith in
        let to : has_node e.to g ≡ true = ground arith in
        rw
          (sym (
            ok_inj {g = linked e g} {g' = g'}
              (rw (add_edge-linked e g k.faithful.inv from to, apply) at h)))
          (record { nodes = o.nodes; edges = insert-Own (λ e. e.id) (with_id e) g.edges o.edges })
    | inr missing ↦ rw (sym (ok_inj {g = g} {g' = g'} (rw (missing, apply, add_edge) at h))) o
  ]
  apply-Own (cut_edge from to) g g' o k h =
      rw (sym (ok_inj {g = (remove_edge from to g).0} {g' = g'} h)) (remove_edge-Own from to g o)
  apply-Own (cut_node id) g g' o k h =
      rw (sym (ok_inj {g = (remove_node id g).0} {g' = g'} h)) (remove_node-Own id g o)

  pub apply_all-Own :
      (us : List (Update P W)) (g g' : Graph P W)
      → all_simple us ≡ true
      → IsOwn g
      → Keyed g
      → apply_all us g ≡ ok g'
      → IsOwn g'
  unfolding apply_all
  apply_all-Own [] g g' s o k h = rw (sym (ok_inj {g = g} {g' = g'} h)) o
  apply_all-Own (u ∷ us) g g' s o k h =
      let (g1, e, k1) = apply-Keyed u g (ground arith) k in
      apply_all-Own us g1 g' (ground arith) (apply-Own u g g1 o k e) k1 (rw (e, apply_all) at h)

  pub new-Own : IsOwn (new {P = P} {W = W})
  unfolding new lookup
  new-Own = record {
    nodes = λ k n h. absurd (ground (arith, h));
    edges = λ k e h. absurd (ground (arith, h));
  }
