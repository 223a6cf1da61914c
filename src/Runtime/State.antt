-- ===== src/Runtime/State.antt =====
-- The runtime, and what its calls ask of a definition.
use agentskills_go.Base.{Bytes, bytes_eq, Bool, ◌||◌, not, ◌==◌, codes}
use agentskills_go.Catalog.State.{Catalog}
use agentskills_go.Spec.{SkillDef}
use agentskills_go.Store.State.{Store}
use agentskills_go.Text.{trim_space, is_blank}

-- The providers do not change after `New`, and are an argument of the calls.
pub record Runtime : Type 0 where
  pub catalog : Catalog
  pub sessions : Store

-- a field with white space around it
unfoldable pub has_outer_space : SkillDef → Bool
has_outer_space def =
    not (trim_space def.type == def.type)
    || not (trim_space def.name == def.name)
    || not (trim_space def.location == def.location)

unfoldable pub is_incomplete : SkillDef → Bool
is_incomplete def = is_blank def.type || is_blank def.name || is_blank def.location

abbrev pub skill_activity_any : Bytes
skill_activity_any = codes "any"

abbrev pub skill_activity_active : Bytes
skill_activity_active = codes "active"

abbrev pub skill_activity_inactive : Bytes
skill_activity_inactive = codes "inactive"
