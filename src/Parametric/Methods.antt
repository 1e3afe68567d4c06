-- ===== src/Parametric/Methods.antt =====
-- The methods of a model that change a parameter or a dependency.
use stair_platform.Prelude.{
  String, ◌≡◌, refl, sym, ◌∙◌, inl, inr, true, ◌||◌, Option, none, some, List, arith, str_eq,
  eq_iff, Bool-cases, Option-cases, lookup, insert, lookup-insert, is_some,
}
use stair_platform.Graph.{has_node, add_node, remove_edge}
use stair_platform.Graph.Keys.{is_plain}
use stair_platform.Graph.Building.{added, linked, add_edge-linked}
use stair_platform.Graph.Topology.{has_cycle}
use stair_platform.Graph.Removal.Keyed.{linked-Keyed}
use stair_platform.Parametric.{
  unknown_parameter, creates_a_cycle, defined, Dependencies, Parameter, ParametricModel, ModelError,
  parameter_node, dependency_edge, is_locked, add_parameter, add_dependency, set_value,
}
use stair_platform.Parametric.Acyclic.{has_node-added}
use stair_platform.Parametric.Sound.{Sound, added-Sound, taken_back-Sound}

linked-nodes :
    (dep of : String) (g : Dependencies) (a : String)
    → has_node a (linked (dependency_edge dep of) g) ≡ has_node a g
unfolding has_node
linked-nodes dep of g a = refl

module _ {V F : Type 0} where
  -- The nodes of the graph are the parameters.
  pub record Inv (m : ParametricModel V F) : Type 0 where
    pub sound : Sound m.g
    pub nodes : (a : String) → has_node a m.g ≡ is_some (lookup a m.params)

  is_some-insert :
      (id : String) (p : Parameter V F) (params : List (String × Parameter V F)) (a : String)
      → is_some (lookup a (insert id p params)) ≡ (str_eq id a || is_some (lookup a params))
  is_some-insert id p params a = ground (arith, lookup-insert id a p params)

  -- A parameter with a node.
  with_node-Inv :
      (id : String) (p : Parameter V F) (m : ParametricModel V F)
      → is_plain id ≡ true
      → Inv m
      → Inv (record { g = added (parameter_node id) m.g; params = insert id p m.params })
  with_node-Inv id p m plain i = record {
    sound = added-Sound (parameter_node id) m.g plain i.sound;
    nodes = λ a.
        has_node-added (parameter_node id) m.g a
        ∙ ground (arith, i.nodes a)
        ∙ sym (is_some-insert id p m.params a);
  }

  pub add_parameter-Inv :
      (p : Parameter V F) (m : ParametricModel V F)
      → is_plain p.id ≡ true
      → Inv m
      → Inv (add_parameter p m).0
  unfolding add_parameter add_node
  add_parameter-Inv p m plain i = elim (Bool-cases (str_eq p.id "")) [
    | inl e ↦ rw (e, add_parameter) i
    | inr e ↦ elim (Bool-cases (str_eq p.owner "")) [
      | inl o ↦ rw (e, o, add_parameter) i
      | inr o ↦ elim (Bool-cases (is_some (lookup p.id m.params))) [
        | inl old ↦ rw (e, o, old, add_parameter) i
        | inr fresh ↦ rw (e, o, fresh, add_parameter, add_node) (with_node-Inv p.id p m plain i)
      ]
    ]
  ]

  -- A parameter that is written again.
  pub kept-nodes :
      (id : String) (p : Parameter V F) (params : List (String × Parameter V F)) (a : String)
      → is_some (lookup id params) ≡ true
      → is_some (lookup a (insert id p params)) ≡ is_some (lookup a params)
  kept-nodes id p params a h = ground (arith, h, is_some-insert id p params a, eq_iff id a)

  pub set_value-Inv :
      (id : String) (v : V) (m : ParametricModel V F) → Inv m → Inv (set_value id v m).0
  unfolding set_value add_node
  set_value-Inv id v m i = elim (Option-cases (lookup id m.params)) [
    | inl e ↦ rw (e, set_value) i
    | inr (p, e) ↦
        let there : is_some (lookup id m.params) ≡ true = rw e refl in
        let p' = record p { value = some v; state = defined } in
        elim (Bool-cases (is_locked p.state)) [
          | inl locked ↦ rw (e, set_value, locked) i
          | inr free ↦ elim (Bool-cases (str_eq id "")) [
            | inl blank ↦
                rw (e, set_value, free, blank, add_node)
                  (record {
                    sound = i.sound;
                    nodes = λ a. i.nodes a ∙ sym (kept-nodes id p' m.params a there);
                  })
            | inr named ↦
                rw (e, set_value, free, named, add_node)
                  (with_node-Inv id p' m (i.sound.keyed.plain id (i.nodes id ∙ there)) i)
          ]
        ]
  ]

  pub add_dependency-Inv :
      (dep of : String) (m : ParametricModel V F)
      → Inv m
      → (m' : ParametricModel V F) × (e : Option ModelError) × (add_dependency dep of m
          ≡ some (m', e))
        × Inv m'
  unfolding add_dependency
  add_dependency-Inv dep of m i = elim (Bool-cases (is_some (lookup dep m.params))) [
    | inr no_dep ↦ (m, some unknown_parameter, rw (no_dep, add_dependency) refl, i)
    | inl has_dep ↦ elim (Bool-cases (is_some (lookup of m.params))) [
      | inr no_of ↦ (m, some unknown_parameter, rw (has_dep, no_of, add_dependency) refl, i)
      | inl has_of ↦
          let e = dependency_edge dep of in
          let from = i.nodes dep ∙ has_dep in
          let to = i.nodes of ∙ has_of in
          let written = add_edge-linked e m.g i.sound.keyed.faithful.inv from to in
          elim (Bool-cases (has_cycle (linked e m.g))) [
            | inl cycle ↦
                let (s, same) = taken_back-Sound e m.g refl from to i.sound in
                (
                  record m { g = (remove_edge dep of (linked e m.g)).0 },
                  some creates_a_cycle,
                  rw (has_dep, has_of, add_dependency, written, cycle) refl,
                  record { sound = s; nodes = λ a. same a ∙ i.nodes a },
                )
            | inr none_there ↦ (
              record m { g = linked e m.g },
              none,
              rw (has_dep, has_of, add_dependency, written, none_there) refl,
              record {
                sound = record {
                  keyed = linked-Keyed e m.g refl from to i.sound.keyed;
                  acyclic = none_there;
                };
                nodes = λ a. linked-nodes dep of m.g a ∙ i.nodes a;
              },
            )
          ]
    ]
  ]
