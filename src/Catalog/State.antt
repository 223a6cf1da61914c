-- ===== src/Catalog/State.antt =====
-- The catalog's state and the records that it hands out.
use agentskills_go.Base.{ℕ, Bytes, bytes_eq, Bool, List, [], Option, ◌==◌, if◌then◌else◌}
use agentskills_go.Artifact.Insert.{normalize_skill_insert}
use agentskills_go.Spec.{
  Error, ProviderSkillKey, SkillDef, SkillHandle, ProviderSkillIndexRecord, SkillRecord,
}

-- `body_wait` is the channel of the load in flight, by a number of its own.
pub record Entry : Type 0 where
  pub def : SkillDef
  pub idx : ProviderSkillIndexRecord
  pub body_loaded : Bool
  pub llm_name : Bytes
  pub body_wait : Option ℕ
  pub body_err : Option Error

-- `next_chan` numbers the channels; Go's map iteration order is the order of `by_key`.
pub record Catalog : Type 0 where
  pub by_key : List (ProviderSkillKey × Entry)
  pub by_def : List (SkillDef × ProviderSkillKey)
  pub handle_index : List (SkillHandle × ProviderSkillKey)
  pub next_chan : ℕ

unfoldable pub new_catalog : Catalog
new_catalog = record { by_key = []; by_def = []; handle_index = []; next_chan = 0 }

-- The copies of slices and maps that the code makes are the values themselves.
unfoldable pub skill_record_from : SkillDef → ProviderSkillIndexRecord → SkillRecord
skill_record_from def idx = record {
  def = def;
  name = if idx.name == [] then idx.key.name else idx.name;
  description = idx.description;
  display_name = idx.display_name;
  insert = (normalize_skill_insert idx.insert).0;
  arguments = idx.arguments;
  tags = idx.tags;
  resources = idx.resources;
  raw_frontmatter = idx.raw_frontmatter;
  warnings = idx.warnings;
  digest = idx.digest;
}
