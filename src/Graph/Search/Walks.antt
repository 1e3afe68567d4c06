-- ===== src/Graph/Search/Walks.antt =====
-- One search from one id: what it adds to the ids seen.
use stair_platform.Prelude.{
  ℕ, zero, suc, ◌<◌, String, ◌≡◌, refl, sym, ◌∙◌, ◌⊎◌, inl, inr, true, false, List, [], ◌∷◌, ◌++◌,
  arith, Bool-cases, contains, contains-cons, contains-nil, contains-append, contains-add_self,
  not-contains-nil, contains-tail, contains-cases,
}
use stair_platform.Graph.{Graph, successors}
use stair_platform.Graph.Traversal.{Walk, each, dfs_from}
use stair_platform.Graph.Search.Fuel.{unseen, Subset, unseen_mono, unseen-cons}

module _ {P W : Type 0} (g : Graph P W) where
  -- `b` is reached from `a` along outgoing edges.
  pub data Reach (a : String) : String → Type 0 where
    here : Reach a a
    next : {b c : String} → Reach a b → contains (successors b g) c ≡ true → Reach a c

  -- The walk keeps what was seen, sees `ids`, and each id newly seen has its successors seen.
  pub record Covers (w w' : Walk) (ids : List String) : Type 0 where
    pub grows : Subset w.0 w'.0
    pub hits : Subset ids w'.0
    pub closed :
        (x y : String)
        → contains w'.0 x ≡ true
        → contains (successors x g) y ≡ true
        → (contains w.0 x ≡ true) ⊎ (contains w'.0 y ≡ true)

  -- A universe of ids that edges do not leave.
  abbrev pub IsClosed : List String → Type 0
  IsClosed us =
      (x y : String)
      → contains us x ≡ true
      → contains (successors x g) y ≡ true
      → contains us y ≡ true

  abbrev pub search : ℕ → String → Walk → Walk
  search = dfs_from (λ _. true) g

  pub search_seen :
      (fuel : ℕ) (id : String) (w : Walk) → contains w.0 id ≡ true → search (suc fuel) id w ≡ w
  unfolding dfs_from
  search_seen fuel id w h = ground arith

  pub search_new :
      (fuel : ℕ) (id : String) (w : Walk)
      → contains w.0 id ≡ false
      → search (suc fuel) id w ≡ each (search fuel) (successors id g) (id ∷ w.0, w.1 ++ id ∷ [])
  unfolding dfs_from
  search_new fuel id w h = ground arith

  module _ (us : List String) (closed_us : IsClosed us) where
    abbrev Works : (String → Walk → Walk) → ℕ → Type 0
    Works f fuel =
        (id : String) (w : Walk)
        → contains us id ≡ true
        → unseen us w.0 < fuel
        → Covers w (f id w) (id ∷ [])

    each-Covers :
        (f : String → Walk → Walk) (fuel : ℕ)
        → Works f fuel
        → (ss : List String) (w : Walk) → Subset ss us
        → unseen us w.0 < fuel
        → Covers w (each f ss w) ss
    unfolding each
    each-Covers f fuel works [] w sub h = record {
      grows = λ y m. m;
      hits = λ y m. absurd (not-contains-nil y m);
      closed = λ x y m s. inl m;
    }
    each-Covers f fuel works (s ∷ ss) w sub h =
        let first : Covers w (f s w) (s ∷ []) = works s w (sub s (contains-add_self s ss)) h in
        let rest : Covers (f s w) (each f ss (f s w)) ss =
          each-Covers f fuel works ss (f s w) (λ y m. sub y (contains-tail s y ss m))
            (omega (arith, unseen_mono us w.0 (f s w).0 first.grows)) in
        record {
          grows = λ y m. rest.grows y (first.grows y m);
          hits = λ y m. elim (contains-cases s y ss m) [
            | inl e ↦ rw e (rest.grows s (first.hits s (contains-add_self s [])))
            | inr t ↦ rest.hits y t
          ];
          closed = λ x y m q. elim (rest.closed x y m q) [
            | inr r ↦ inr r
            | inl l ↦ elim (first.closed x y l q) [ inl a ↦ inl a | inr b ↦ inr (rest.grows y b) ]
          ];
        }

    enter :
        (id : String) (w w' : Walk)
        → Covers (id ∷ w.0, w.1 ++ id ∷ []) w' (successors id g)
        → Covers w w' (id ∷ [])
    enter id w w' c = record {
      grows = λ y m. c.grows y (contains-tail id y w.0 m);
      hits = λ y m. elim (contains-cases id y [] m) [
        | inl e ↦ rw e (c.grows id (contains-add_self id w.0))
        | inr n ↦ absurd (not-contains-nil y n)
      ];
      closed = λ x y m q. elim (c.closed x y m q) [
        | inr r ↦ inr r
        | inl l ↦ elim (contains-cases id x w.0 l) [
          | inl e ↦ inr (c.hits y (rw e at q))
          | inr old ↦ inl old
        ]
      ];
    }

    -- With more fuel than unseen ids, the search from `id` covers it.
    pub search-Covers :
        (fuel : ℕ) (id : String) (w : Walk)
        → contains us id ≡ true
        → unseen us w.0 < fuel
        → Covers w (search fuel id w) (id ∷ [])
    search-Covers zero id w u h = absurd (omega arith)
    search-Covers (suc fuel) id w u h = elim (Bool-cases (contains w.0 id)) [
      | inl old ↦ rw (search_seen fuel id w old) (record {
        grows = λ y m. m;
        hits = λ y m. elim (contains-cases id y [] m) [
          | inl e ↦ rw e old
          | inr n ↦ absurd (not-contains-nil y n)
        ];
        closed = λ x y m s. inl m;
      })
      | inr new ↦ rw (search_new fuel id w new) (
          enter id w _ (
            each-Covers (search fuel) fuel (search-Covers fuel) (successors id g)
              (id ∷ w.0, w.1 ++ id ∷ []) (λ y m. closed_us id y u m)
              (omega (arith, unseen-cons us w.0 id u new))))
    ]

  module _ (us : List String) (closed_us : IsClosed us) where
    each-stable :
        (fuel : ℕ)
        → ((id : String) (w : Walk)
            → contains us id ≡ true
            → unseen us w.0 < fuel
            → search (suc fuel) id w ≡ search fuel id w)
        → (ss : List String) (w : Walk) → Subset ss us
        → unseen us w.0 < fuel
        → each (search (suc fuel)) ss w ≡ each (search fuel) ss w
    unfolding each
    each-stable fuel same [] w sub h = refl
    each-stable fuel same (s ∷ ss) w sub h =
        let first = search-Covers us closed_us fuel s w (sub s (contains-add_self s ss)) h in
        rw (same s w (sub s (contains-add_self s ss)) h) (
          each-stable fuel same ss (search fuel s w) (λ y m. sub y (contains-tail s y ss m))
            (omega (arith, unseen_mono us w.0 (search fuel s w).0 first.grows)))

    -- With more fuel than unseen ids, one more round changes nothing.
    pub search-stable :
        (fuel : ℕ) (id : String) (w : Walk)
        → contains us id ≡ true
        → unseen us w.0 < fuel
        → search (suc fuel) id w ≡ search fuel id w
    search-stable zero id w u h = absurd (omega arith)
    search-stable (suc fuel) id w u h = elim (Bool-cases (contains w.0 id)) [
      | inl old ↦ search_seen (suc fuel) id w old ∙ sym (search_seen fuel id w old)
      | inr new ↦
          search_new (suc fuel) id w new
          ∙ each-stable fuel (search-stable fuel) (successors id g) (id ∷ w.0, w.1 ++ id ∷ [])
              (λ y m. closed_us id y u m) (omega (arith, unseen-cons us w.0 id u new))
          ∙ sym (search_new fuel id w new)
    ]

  abbrev Sound : (String → Walk → Walk) → Type 0
  Sound f =
      (id y : String) (w : Walk)
      → contains (f id w).0 y ≡ true
      → (contains w.0 y ≡ true) ⊎ Reach id y

  Reach-trans : {a b c : String} → Reach a b → Reach b c → Reach a c
  Reach-trans p here = p
  Reach-trans p (next q s) = next (Reach-trans p q) s

  each-Sound :
      (f : String → Walk → Walk)
      → Sound f
      → (ss : List String) (y : String) (w : Walk) → contains (each f ss w).0 y ≡ true
      → (contains w.0 y ≡ true) ⊎ ((s : String) × (contains ss s ≡ true) × Reach s y)
  unfolding each
  each-Sound f sound [] y w h = inl h
  each-Sound f sound (s ∷ ss) y w h = elim (each-Sound f sound ss y (f s w) h) [
    | inr (t, m, r) ↦ inr (t, contains-tail s t ss m, r)
    | inl l ↦ elim (sound s y w l) [
      | inl old ↦ inl old
      | inr r ↦ inr (s, contains-add_self s ss, r)
    ]
  ]

  -- Whatever the fuel, a search sees nothing new that is not reached from its start.
  pub search-Sound : (fuel : ℕ) → Sound (search fuel)
  unfolding dfs_from
  search-Sound zero id y w h = inl h
  search-Sound (suc fuel) id y w h = elim (Bool-cases (contains w.0 id)) [
    | inl old ↦ inl (rw (search_seen fuel id w old) at h)
    | inr new ↦
        let seen : contains (each (search fuel) (successors id g) (id ∷ w.0, w.1 ++ id ∷ [])).0 y
            ≡ true =
          rw (search_new fuel id w new) at h in
        elim (each-Sound (search fuel) (search-Sound fuel) (successors id g) y
          (id ∷ w.0, w.1 ++ id ∷ []) seen) [
            | inr (s, m, r) ↦ inr (Reach-trans (next here m) r)
            | inl l ↦ elim (contains-cases id y w.0 l) [
              | inl e ↦ inr (rw e here)
              | inr old ↦ inl old
            ]
          ]
  ]

  -- The log of a search holds what it has seen.
  abbrev pub Logged : Walk → Type 0
  Logged w = (y : String) → contains w.1 y ≡ contains w.0 y

  each-Logged :
      (f : String → Walk → Walk)
      → ((id : String) (w : Walk) → Logged w → Logged (f id w))
      → (ss : List String) (w : Walk) → Logged w
      → Logged (each f ss w)
  unfolding each
  each-Logged f keep [] w h = h
  each-Logged f keep (s ∷ ss) w h = each-Logged f keep ss (f s w) (keep s w h)

  pub search-Logged : (fuel : ℕ) (id : String) (w : Walk) → Logged w → Logged (search fuel id w)
  unfolding dfs_from
  search-Logged zero id w h = h
  search-Logged (suc fuel) id w h = elim (Bool-cases (contains w.0 id)) [
    | inl old ↦ rw (search_seen fuel id w old) h
    | inr new ↦ rw (search_new fuel id w new) (
        each-Logged (search fuel) (search-Logged fuel) (successors id g) (id ∷ w.0, w.1 ++ id ∷ [])
          (λ y.
            rw (contains-append, contains-cons, contains-cons, contains-nil) (ground (arith, h y))))
  ]
