-- ===== src/Parametric/Rebuilt.antt =====
-- A model under any sequence of its methods, and its recomputation.
use stair_platform.Prelude.{
  ◌≤◌, String, ◌≡◌, ◌↔◌, refl, sym, ◌∙◌, inl, inr, Bool, true, false, ◌&&◌, Option, none, some,
  List, [], ◌∷◌, arith, eq_iff, Option-cases, lookup, insert, contains, occurs, is_some,
}
use stair_platform.Graph.{Graph, has_node, add_node, add_edge, remove_edge}
use stair_platform.Graph as graphs
use stair_platform.Graph.Keys.{is_plain}
use stair_platform.Graph.Topology.{has_cycle}
use stair_platform.Graph.Topology.Rounds.{IsForward}
use stair_platform.Graph.Topology.Built.{Faithful-IsFaithful}
use stair_platform.Graph.Plan.{plan, mark_all}
use stair_platform.Graph.Plan.Dirty.{IsDirty}
use stair_platform.Graph.Plan.Dependents.{InOrder, plan-IsDirty, plan-nodes, plan-acyclic}
use stair_platform.Graph.Removal.Keyed.{new-Keyed}
use stair_platform.Parametric.{
  Parameter, ParametricModel, ModelError, new_model, add_parameter, add_dependency, set_value,
  recompute, run_plan, rebuild,
}
use stair_platform.Parametric.Acyclic.{Topological→acyclic}
use stair_platform.Parametric.Methods.{
  Inv, kept-nodes, add_parameter-Inv, set_value-Inv, add_dependency-Inv,
}
use stair_platform.Parametric.Sound.{mark_all-Sound}

module _ {V F : Type 0} (eval : F → List (String × Parameter V F) → Option V) where
  pub data Call : Type 0 where
    add : Parameter V F → Call
    depend : String → String → Call
    set : String → V → Call
    rebuild_all : List String → Call

  -- The model after a call, its error left aside; none is a panic.
  unfoldable pub after_call : Call → ParametricModel V F → Option (ParametricModel V F)
  after_call (add p) m = some (add_parameter p m).0
  after_call (depend dep of) m = elim (add_dependency dep of m) [
    | none ↦ none
    | some (m', e) ↦ some m'
  ]
  after_call (set id v) m = some (set_value id v m).0
  after_call (rebuild_all changed) m = elim (rebuild eval changed m) [
    | none ↦ none
    | some (m', e) ↦ some m'
  ]

  unfoldable pub run : List Call → ParametricModel V F → Option (ParametricModel V F)
  unfolding after_call
  run [] m = some m
  run (c ∷ cs) m = elim (after_call c m) [ none ↦ none | some m' ↦ run cs m' ]

  abbrev pub is_simple : Call → Bool
  is_simple (add p) = is_plain p.id
  is_simple _ = true

  abbrev pub all_simple : List Call → Bool
  all_simple [] = true
  all_simple (c ∷ cs) = is_simple c && all_simple cs

  -- The loop over a plan of parameters ends, and keeps what there is.
  run_plan-keeps :
      (ids : List String) (params : List (String × Parameter V F))
      → ((x : String) → contains ids x ≡ true → is_some (lookup x params) ≡ true)
      → (params' : List (String × Parameter V F)) × (e : Option ModelError) × (run_plan eval ids
            params
          ≡ some (params', e))
        × ((a : String) → is_some (lookup a params') ≡ is_some (lookup a params))
  unfolding run_plan contains
  run_plan-keeps [] params there = (params, none, refl, λ a. refl)
  run_plan-keeps (id ∷ ids) params there =
      let here = there id (ground (arith, eq_iff id id)) in
      elim (Option-cases (lookup id params)) [
        | inl missing ↦ absurd (ground (arith, missing))
        | inr (p, found) ↦
            let p' = (recompute eval p params).0 in
            let kept = λ (a : String). kept-nodes id p' params a here in
            elim (Option-cases (recompute eval p params).1) [
              | inr (e, failed) ↦
                  (insert id p' params, some e, rw (found, run_plan, failed) refl, kept)
              | inl done ↦
                  let (params', e, more, same) =
                    run_plan-keeps ids (insert id p' params)
                      (λ x m. kept x ∙ there x (ground (arith, m))) in
                  (params', e, rw (found, run_plan, done) more, λ a. same a ∙ kept a)
            ]
      ]

  -- `Rebuild` of a sound model returns, and not with a cycle.
  rebuild-Inv :
      (changed : List String) (m : ParametricModel V F)
      → Inv m
      → (m' : ParametricModel V F) × (e : Option ModelError) × (rebuild eval changed m
          ≡ some (m', e))
        × Inv m'
  unfolding rebuild
  rebuild-Inv changed m i =
      let faithful = Faithful-IsFaithful m.g i.sound.keyed.faithful in
      let (ids, planned) = plan-acyclic m.g changed i.sound.acyclic in
      let (params, e, done, same) =
        run_plan-keeps ids m.params
          (λ x h. sym (i.nodes x) ∙ plan-nodes m.g changed ids x faithful planned h) in
      elim (Option-cases e) [
        | inr (failure, failed) ↦ (
          record m { params = params },
          some failure,
          rw (planned, rebuild, done, failed) refl,
          record { sound = i.sound; nodes = λ a. i.nodes a ∙ sym (same a) },
        )
        | inl fine ↦
            let (s, marked) = mark_all-Sound ids m.g i.sound in
            let (s', marked') = mark_all-Sound changed (mark_all ids m.g) s in
            (
              record { g = mark_all changed (mark_all ids m.g); params = params },
              none,
              rw (planned, rebuild, done, fine) refl,
              record { sound = s'; nodes = λ a. marked' a ∙ marked a ∙ i.nodes a ∙ sym (same a) },
            )
      ]

  after_call-Inv :
      (c : Call) (m : ParametricModel V F)
      → is_simple c ≡ true
      → Inv m
      → (m' : ParametricModel V F) × (after_call c m ≡ some m') × Inv m'
  unfolding after_call
  after_call-Inv (add p) m s i = ((add_parameter p m).0, refl, add_parameter-Inv p m s i)
  after_call-Inv (set id v) m s i = ((set_value id v m).0, refl, set_value-Inv id v m i)
  after_call-Inv (depend dep of) m s i =
      let (m', e, h, i') = add_dependency-Inv dep of m i in (m', rw (after_call, h) refl, i')
  after_call-Inv (rebuild_all changed) m s i =
      let (m', e, h, i') = rebuild-Inv changed m i in (m', rw (after_call, h) refl, i')

  run-Inv :
      (cs : List Call) (m : ParametricModel V F)
      → all_simple cs ≡ true
      → Inv m
      → (m' : ParametricModel V F) × (run cs m ≡ some m') × Inv m'
  unfolding run
  run-Inv [] m s i = (m, refl, i)
  run-Inv (c ∷ cs) m s i =
      let (m', h, i') = after_call-Inv c m (ground arith) i in
      let (m'', h', i'') = run-Inv cs m' (ground arith) i' in (m'', rw (h, run) h', i'')

  new_model-Inv : Inv {V = V} {F = F} new_model
  unfolding new_model graphs.new has_node lookup occurs IsForward
  new_model-Inv = record {
    sound = record {
      keyed = new-Keyed;
      acyclic =
          Topological→acyclic graphs.new new-Keyed
            ([], record { nodes_once = λ x. refl; forward = tt });
    };
    nodes = λ a. refl;
  }

  -- Any sequence of calls of `Add`, `AddDependency`, `Set` and `Rebuild` on a new model, failed calls
  -- included, where no id of a parameter has a dash, runs without a panic; the dependencies have no
  -- cycle, exactly the parameters are nodes, and for any ids `Rebuild` has a plan, which is exactly
  -- the parameters that are reached from a changed one and are not changed themselves, each of them
  -- once, and each behind all planned ones that it depends on.
  pub run-planned :
      (cs : List Call)
      → all_simple cs ≡ true
      → (m : ParametricModel V F) × (run cs new_model ≡ some m)
        × (has_cycle m.g ≡ false)
        × ((a : String) → has_node a m.g ≡ is_some (lookup a m.params))
        × ((changed : List String)
            → (ids : List String) × (plan m.g changed ≡ some ids)
              × ((x : String) → (contains ids x ≡ true) ↔ IsDirty m.g changed x)
              × ((x : String) → occurs x ids ≤ 1)
              × InOrder m.g ids [] ids)
  run-planned cs s =
      let (m, h, i) = run-Inv cs new_model s new_model-Inv in
      let faithful = Faithful-IsFaithful m.g i.sound.keyed.faithful in
      (
        m,
        h,
        i.sound.acyclic,
        i.nodes,
        λ changed.
            let (ids, planned) = plan-acyclic m.g changed i.sound.acyclic in
            let (exactly, once, in_order) = plan-IsDirty m.g changed ids faithful planned in
            (ids, planned, exactly, once, in_order),
      )
