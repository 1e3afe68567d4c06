-- ===== src/Engineering/Project.antt =====
-- internal/domain/engineering/project.go: the aggregate root of a project.
use stair_platform.Prelude.{ℕ, String, Option, none, some, str_eq, if◌then◌else◌}
use stair_platform.Engineering.Parameter.{Parameter}
use stair_platform.Engineering.Object.{EngineeringObject, ObjectError, made, refused}
use stair_platform.Engineering.Object as objects

pub record Project (V : Type 0) : Type 0 where
  pub object : EngineeringObject V
  pub name : String

pub data ProjectError : Type 0 where
  name_required : ProjectError
  object_error : ObjectError → ProjectError

-- What `NewProject` returns.
pub data Opened (V : Type 0) : Type 0 where
  opened : Project V → Opened V
  failed : ProjectError → Opened V

module _ {V : Type 0} (checksum : String → String) where
  unfoldable pub new_project : String → ℕ → String → String → String → String → Opened V
  new_project rev_id now id owner name reason =
      if str_eq name ""
      then failed name_required
      else elim (objects.new_object checksum rev_id now id "project" owner reason) [
        | refused e ↦ failed (object_error e)
        | made obj ↦ opened (record { object = obj; name = name })
      ]

  unfoldable pub commit_project :
      String → ℕ → String → String → Project V → Project V × Option ObjectError
  commit_project rev_id now author reason p =
      let (obj, e) = objects.commit checksum rev_id now author reason p.object in
      (record p { object = obj }, e)

module _ {V : Type 0} where
  unfoldable pub rename : String → Project V → Project V × Option ProjectError
  rename name p =
      if str_eq name "" then (p, some name_required) else (record p { name = name }, none)

  unfoldable pub add_project_parameter : Parameter V → Project V → Project V × Option ObjectError
  add_project_parameter param p =
      let (obj, e) = objects.add_parameter param p.object in (record p { object = obj }, e)
