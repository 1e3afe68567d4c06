-- ===== src/Engineering/Parameter.antt =====
-- internal/domain/engineering/parameter.go: the life of a parameter. A value is of any type `V`;
-- `nil` is `none`.
pub mod Lifecycle
use stair_platform.Prelude.{
  String, Bool, true, false, ◌||◌, Option, none, some, List, [], str_eq, if◌then◌else◌,
}

pub data ParameterState : Type 0 where
  created validated calculated applied referenced modified recalculated archived : ParameterState

pub data ParameterSource : Type 0 where
  user formula imported ai manufacturing external_system : ParameterSource

pub data ParameterError : Type 0 where
  id_and_name_required unit_required value_required formula_only archived_immutable : ParameterError

pub record Parameter (V : Type 0) : Type 0 where
  pub id : String
  pub name : String
  pub unit : String
  pub value : Option V
  pub source : ParameterSource
  pub state : ParameterState
  pub formula : String
  pub depends_on : List String

abbrev pub is_formula : ParameterSource → Bool
is_formula formula = true
is_formula _ = false

abbrev pub is_created : ParameterState → Bool
is_created created = true
is_created _ = false

abbrev pub is_archived : ParameterState → Bool
is_archived archived = true
is_archived _ = false

module _ {V : Type 0} where
  unfoldable pub new_parameter : String → String → String → Option V → ParameterSource → Parameter V
  new_parameter id name unit value source = record {
    id = id;
    name = name;
    unit = unit;
    value = value;
    source = source;
    state = created;
    formula = "";
    depends_on = [];
  }

  abbrev pub is_none : Option V → Bool
  is_none none = true
  is_none (some _) = false

  -- A method returns the parameter that it leaves and its error.
  unfoldable pub validate : Parameter V → Parameter V × Option ParameterError
  validate p =
      if str_eq p.id "" || str_eq p.name ""
      then (p, some id_and_name_required)
      else if str_eq p.unit ""
      then (p, some unit_required)
      else if is_none p.value
      then (p, some value_required)
      else (record p { state = validated }, none)

  unfoldable pub calculate : Option V → Parameter V → Parameter V × Option ParameterError
  calculate v p =
      if is_formula p.source
      then (record p { value = v; state = calculated }, none)
      else (p, some formula_only)

  unfoldable pub apply : Parameter V → Parameter V × Option ParameterError
  unfolding validate
  apply p =
      if is_created p.state
      then elim (validate p).1 [
        | some e ↦ ((validate p).0, some e)
        | none ↦ (record (validate p).0 { state = applied }, none)
      ]
      else (record p { state = applied }, none)

  unfoldable pub modify : Option V → Parameter V → Parameter V × Option ParameterError
  modify v p =
      if is_archived p.state
      then (p, some archived_immutable)
      else (record p { value = v; state = modified }, none)

  unfoldable pub recalculate : Option V → Parameter V → Parameter V
  recalculate v p = record p { value = v; state = recalculated }

  unfoldable pub archive : Parameter V → Parameter V
  archive p = record p { state = archived }
