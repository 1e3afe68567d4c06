-- ===== src/Engineering/Object/History.antt =====
-- The history of an engineering object over any sequence of its methods.
use stair_platform.Prelude.{
  ℕ, suc, ◌+◌, ap, arith, Bool, true, false, not, ◌&&◌, if◌then◌else◌, String, ◌≡◌, refl, sym, ◌∙◌,
  ◌⊎◌, inl, inr, zero, Option-cases, Option, none, some, List, [], ◌∷◌, ◌++◌, Bool-cases, length,
  lookup, is_some,
}
use stair_platform.Engineering.Revision.{
  advance, next_state, is_released, release_loop, new_revision, Revision, child, release, fail, ok,
  Result, RevisionError,
}
use stair_platform.Engineering.Parameter.{Parameter}
use stair_platform.Engineering.Object.{
  EngineeringState, EngineeringObject, add_parameter, transition, add_event, allowed,
  snapshot_for_checksum, set_correlation_id, commit,
}
use mathlib.Core.List.{append-nil, append_assoc}

-- The methods, and `Release` on the current revision by whoever holds its pointer.
pub data Op (V : Type 0) : Type 0 where
  op_add_parameter : Parameter V → Op V
  op_commit : String → ℕ → String → String → Op V
  op_transition : EngineeringState → Op V
  op_set_correlation_id : String → Op V
  op_release : Op V

abbrev pub after_release : Revision → Option (Revision × Option RevisionError) → Revision
after_release r none = r
after_release r (some (r', e)) = r'

-- `ys` begins with `xs`.
abbrev pub Extends : {A : Type 0} → List A → List A → Type 0
Extends {A} xs ys = (rest : List A) × (ys ≡ xs ++ rest)

Extends-refl : {A : Type 0} (xs : List A) → Extends xs xs
Extends-refl xs = ([], sym (append-nil xs))

Extends-trans : {A : Type 0} (xs ys zs : List A) → Extends xs ys → Extends ys zs → Extends xs zs
Extends-trans xs ys zs (a, p) (b, q) = (a ++ b, rw (q, p, append_assoc))

Result-cases :
    {A : Type 0} (r : Result A) → ((a : A) × (r ≡ ok a)) ⊎ ((e : RevisionError) × (r ≡ fail e))
Result-cases (ok a) = inl (a, refl)
Result-cases (fail e) = inr (e, refl)

length-snoc : {A : Type 0} (xs : List A) (x : A) → length (xs ++ x ∷ []) ≡ suc (length xs)
length-snoc [] x = refl
length-snoc (y ∷ ys) x = ap suc (length-snoc ys x)

snoc_if :
    (b : Bool) (xs rest : List Revision) (x : Revision)
    → (if b then xs ++ x ∷ [] else xs) ++ rest ≡ xs ++ (if b then x ∷ rest else rest)
snoc_if true xs rest x = append_assoc xs (x ∷ []) rest
snoc_if false xs rest x = refl

advance-id : (r r' : Revision) → advance r ≡ ok r' → r'.id ≡ r.id
unfolding advance
advance-id r r' h = elim (Option-cases (next_state r.state)) [
  | inl e ↦ absurd (ground (arith, e, h))
  | inr (target, e) ↦
      let same : record r { state = target } ≡ r' = ground (arith, e, h) in
      ap (λ (x : Revision). x.id) (sym same)
]

release_loop-id :
    (fuel : ℕ) (r r' : Revision) (e : Option RevisionError)
    → release_loop fuel r ≡ some (r', e)
    → r'.id ≡ r.id
unfolding release_loop
release_loop-id zero r r' e h = absurd (ground (arith, h))
release_loop-id (suc fuel) r r' e h = elim (Bool-cases (is_released r.state)) [
  | inl done ↦
      let same : r ≡ r' = ground (arith, rw (done, release_loop) at h) in
      ap (λ (x : Revision). x.id) (sym same)
  | inr more ↦ elim (Result-cases (advance r)) [
    | inl (next, moved) ↦
        release_loop-id fuel next r' e (rw (more, moved, release_loop) at h)
        ∙ advance-id r next moved
    | inr (err, stuck) ↦
        let same : r ≡ r' = ground (arith, rw (more, stuck, release_loop) at h) in
        ap (λ (x : Revision). x.id) (sym same)
  ]
]

after_release-id : (r : Revision) → (after_release r (release r)).id ≡ r.id
unfolding release
after_release-id r = elim (Option-cases (release r)) [
  | inl e ↦ rw e refl
  | inr ((r', err), e) ↦ rw e (release_loop-id 6 r r' err e)
]

child-id :
    (r : Revision) (at : ℕ) (id : String) (now : ℕ) (author reason sum : String) (c : Revision)
    → child r at id now author reason sum ≡ ok c
    → c.id ≡ id
unfolding child new_revision
child-id r at id now author reason sum c h = ground (arith, h)

module _ {V : Type 0} (checksum : String → String) where
  unfoldable pub step : Op V → EngineeringObject V → EngineeringObject V
  step (op_add_parameter p) o = (add_parameter p o).0
  step (op_commit id now author reason) o = (commit checksum id now author reason o).0
  step (op_transition target) o = (transition target o).0
  step (op_set_correlation_id id) o = set_correlation_id id o
  step op_release o = record o { current = after_release o.current (release o.current) }

  unfoldable pub run : List (Op V) → EngineeringObject V → EngineeringObject V
  run [] o = o
  run (op ∷ ops) o = run ops (step op o)

  -- A call that is accepted and leaves an event.
  unfoldable pub notes : Op V → EngineeringObject V → Bool
  notes (op_add_parameter p) o = not (is_some (add_parameter p o).1)
  notes (op_commit id now author reason) o =
      not (is_some (commit checksum id now author reason o).1)
  notes (op_transition target) o = not (is_some (transition target o).1)
  notes _ o = false

  unfoldable pub count_notes : List (Op V) → EngineeringObject V → ℕ
  count_notes [] o = 0
  count_notes (op ∷ ops) o =
      let rest = count_notes ops (step op o) in if notes op o then suc rest else rest

  -- The revisions that the accepted commits replace, each as it was at its commit.
  abbrev pub is_commit : Op V → Bool
  is_commit (op_commit id now author reason) = true
  is_commit _ = false

  unfoldable pub replaced : List (Op V) → EngineeringObject V → List Revision
  replaced [] o = []
  replaced (op ∷ ops) o =
      let rest = replaced ops (step op o) in
      if is_commit op && notes op o then o.current ∷ rest else rest

  -- The id of the newest revision: that of the last accepted commit, or `id` where there is none.
  abbrev pub id_after : Op V → String → String
  id_after (op_commit id now author reason) before = id
  id_after _ before = before

  unfoldable pub newest_id : List (Op V) → EngineeringObject V → String → String
  newest_id [] o id = id
  newest_id (op ∷ ops) o id = newest_id ops (step op o) (if notes op o then id_after op id else id)

  pub record Keeps (ops : List (Op V)) (o o' : EngineeringObject V) : Type 0 where
    pub same_id : o'.id ≡ o.id
    pub same_kind : o'.kind ≡ o.kind
    pub same_owner : o'.owner ≡ o.owner
    pub older_grows : o'.older ≡ o.older ++ replaced ops o
    pub newest : o'.current.id ≡ newest_id ops o o.current.id
    pub events_grow : Extends o.events o'.events
    pub events_counted : length o'.events ≡ length o.events + count_notes ops o

  -- One call.
  record Stepped (op : Op V) (o o' : EngineeringObject V) : Type 0 where
    pub same_id : o'.id ≡ o.id
    pub same_kind : o'.kind ≡ o.kind
    pub same_owner : o'.owner ≡ o.owner
    pub older_grows :
        o'.older ≡ (if is_commit op && notes op o then o.older ++ o.current ∷ [] else o.older)
    pub newest : o'.current.id ≡ (if notes op o then id_after op o.current.id else o.current.id)
    pub events_grow : Extends o.events o'.events
    pub events_counted :
        length o'.events ≡ (if notes op o then suc (length o.events) else length o.events)

  silent : (op : Op V) (o : EngineeringObject V) → notes op o ≡ false → Stepped op o o
  silent op o h = record {
    same_id = refl;
    same_kind = refl;
    same_owner = refl;
    older_grows = ground (arith, h);
    newest = rw h refl;
    events_grow = Extends-refl o.events;
    events_counted = rw h refl;
  }

  step-Stepped : (op : Op V) (o : EngineeringObject V) → Stepped op o (step op o)
  unfolding step add_event add_parameter transition set_correlation_id notes commit
  step-Stepped (op_add_parameter p) o = elim (Bool-cases (is_some (lookup p.id o.params))) [
    | inl e ↦
        rw (e, step, add_parameter)
          (silent (op_add_parameter p) o (rw (notes, add_parameter, e) refl))
    | inr e ↦
        rw (e, step, add_parameter)
          (record {
            same_id = refl;
            same_kind = refl;
            same_owner = refl;
            older_grows = refl;
            newest = rw (notes, add_parameter, transition, e) refl;
            events_grow = (_ ∷ [], refl);
            events_counted = rw (notes, add_parameter, e) (length-snoc o.events _);
          })
  ]
  step-Stepped (op_commit id now author reason) o =
      elim (Result-cases (
        child o.current (length o.older) id now author reason
          (checksum (snapshot_for_checksum o)))) [
            | inl (next, e) ↦
                rw (e, step, commit)
                  (record {
                    same_id = refl;
                    same_kind = refl;
                    same_owner = refl;
                    older_grows = rw (notes, commit, e) refl;
                    newest =
                        rw (notes, commit, e)
                          (child-id o.current (length o.older) id now author reason
                            (checksum (snapshot_for_checksum o)) next e);
                    events_grow = (_ ∷ [], refl);
                    events_counted = rw (notes, commit, e) (length-snoc o.events _);
                  })
            | inr (err, e) ↦
                rw (e, step, commit)
                  (silent (op_commit id now author reason) o (rw (notes, commit, e) refl))
          ]
  step-Stepped (op_transition target) o = elim (Bool-cases (allowed o.state target)) [
    | inl e ↦
        rw (e, step, transition)
          (record {
            same_id = refl;
            same_kind = refl;
            same_owner = refl;
            older_grows = refl;
            newest = rw (notes, add_parameter, transition, e) refl;
            events_grow = (_ ∷ [], refl);
            events_counted = rw (notes, transition, e) (length-snoc o.events _);
          })
    | inr e ↦
        rw (e, step, transition) (silent (op_transition target) o (rw (notes, transition, e) refl))
  ]
  step-Stepped (op_set_correlation_id id) o = record {
    same_id = refl;
    same_kind = refl;
    same_owner = refl;
    older_grows = refl;
    newest = refl;
    events_grow = Extends-refl o.events;
    events_counted = refl;
  }
  step-Stepped op_release o = record {
    same_id = refl;
    same_kind = refl;
    same_owner = refl;
    older_grows = refl;
    newest = after_release-id o.current;
    events_grow = Extends-refl o.events;
    events_counted = refl;
  }

  -- Over any sequence of `AddParameter`, `Commit`, `Transition`, `SetCorrelationID` and releases of
  -- the current revision, successful or not, an object keeps its id, kind and owner; the revisions
  -- before its current one get, at the end, exactly those that the successful commits replace, in
  -- order; its current revision has the id of the last successful commit, if there is one; and its
  -- events get, at the end, one for each successful `AddParameter`, `Commit` and `Transition`.
  pub run-Keeps : (ops : List (Op V)) (o : EngineeringObject V) → Keeps ops o (run ops o)
  unfolding run replaced count_notes newest_id
  run-Keeps [] o = record {
    same_id = refl;
    same_kind = refl;
    same_owner = refl;
    older_grows = sym (append-nil o.older);
    newest = refl;
    events_grow = Extends-refl o.events;
    events_counted = omega arith;
  }
  run-Keeps (op ∷ ops) o =
      let a : Stepped op o (step op o) = step-Stepped op o in
      let b : Keeps ops (step op o) (run ops (step op o)) = run-Keeps ops (step op o) in
      record {
        same_id = b.same_id ∙ a.same_id;
        same_kind = b.same_kind ∙ a.same_kind;
        same_owner = b.same_owner ∙ a.same_owner;
        older_grows =
            b.older_grows
            ∙ ap (λ (xs : List Revision). xs ++ replaced ops (step op o)) a.older_grows
            ∙ snoc_if (is_commit op && notes op o) o.older (replaced ops (step op o)) o.current;
        newest = b.newest ∙ ap (newest_id ops (step op o)) a.newest;
        events_grow = Extends-trans _ _ _ a.events_grow b.events_grow;
        events_counted = ground (arith, b.events_counted, a.events_counted);
      }
