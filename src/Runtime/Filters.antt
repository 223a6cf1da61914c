-- ===== src/Runtime/Filters.antt =====
-- `SkillListFilter` and how it is normalised.
use agentskills_go.Base.{
  Bytes, bytes_eq, not, List, [], ◌∷◌, ◌++◌, Option, none, some, contains, ◌==◌, if◌then◌else◌,
}
use agentskills_go.Artifact.Insert.{normalize_skill_insert}
use agentskills_go.Catalog.Filters.{UserFilter}
use agentskills_go.Runtime.State.{is_incomplete, skill_activity_any}
use agentskills_go.Spec.{SkillDef, def_eq}
use agentskills_go.Text.{trim_space, is_blank}

pub record SkillListFilter : Type 0 where
  pub types : List Bytes
  pub name_prefix : Bytes
  pub location_prefix : Bytes
  pub allow_skills : List SkillDef
  pub inserts : List Bytes
  pub session_id : Bytes
  pub activity : Bytes

-- The loop over the types; the first list holds those kept so far.
unfoldable pub normalize_types : List Bytes → List Bytes → List Bytes
normalize_types types [] = types
normalize_types types (t ∷ ts) =
    if is_blank t
    then normalize_types types ts
    else normalize_types
        (if contains (trim_space t) types then types else types ++ trim_space t ∷ []) ts

unfoldable pub normalize_allow : List SkillDef → List SkillDef → List SkillDef
normalize_allow allow [] = allow
normalize_allow allow (d ∷ ds) =
    if is_incomplete d
    then normalize_allow allow ds
    else normalize_allow (if contains d allow then allow else allow ++ d ∷ []) ds

unfoldable pub normalize_insert_filter : List Bytes → List Bytes → List Bytes
normalize_insert_filter out [] = out
normalize_insert_filter out (raw ∷ rest) =
    let (insert, valid) = normalize_skill_insert raw in
    if not valid
    then normalize_insert_filter out rest
    else normalize_insert_filter (if contains insert out then out else out ++ insert ∷ []) rest

unfoldable pub normalize_activity : Bytes → Bytes
normalize_activity activity =
    if trim_space activity == [] then skill_activity_any else trim_space activity

-- `none` is a nil filter.
unfoldable pub normalize_skill_list_filter : Option SkillListFilter → SkillListFilter
normalize_skill_list_filter none = record {
  types = [];
  name_prefix = [];
  location_prefix = [];
  allow_skills = [];
  inserts = [];
  session_id = [];
  activity = skill_activity_any;
}
normalize_skill_list_filter (some f) = record {
  types = normalize_types [] f.types;
  name_prefix = f.name_prefix;
  location_prefix = f.location_prefix;
  allow_skills = normalize_allow [] f.allow_skills;
  inserts = normalize_insert_filter [] f.inserts;
  session_id = trim_space f.session_id;
  activity = normalize_activity f.activity;
}

unfoldable pub to_catalog_user_filter : SkillListFilter → UserFilter
to_catalog_user_filter f = record {
  types = f.types;
  name_prefix = f.name_prefix;
  location_prefix = f.location_prefix;
  allow_defs = f.allow_skills;
  inserts = f.inserts;
}
