-- ===== src/FsProvider/Calls.antt =====
-- `Index`, `LoadBody`, `ReadResource` and `RunScript`.
use agentskills_go.Base.{
  ℕ, Bytes, bytes_eq, ◌||◌, not, List, [], ◌++◌, Option, none, some, codes, ◌==◌, if◌then◌else◌,
}
use agentskills_go.FsProvider.Config.{Config}
use agentskills_go.FsProvider.Resources.{index_skill_resources, unique_strings}
use agentskills_go.FsProvider.Roots.{canonical_root, read_skill, load_skill_body}
use agentskills_go.FsProvider.System.{FileSystem, Tools}
use agentskills_go.Spec.{
  Error, Result, ok, err, Ctx, Fields, SkillDef, SkillDocument, SkillResourceInfo, ProviderSkillKey,
  ProviderSkillIndexRecord, SkillProvider, RunScriptOut, read_resource_encoding_text,
}
use agentskills_go.Text.{trim_space, is_blank}

abbrev pub fs_type : Bytes
fs_type = codes "fs"

abbrev pub read_resource_encoding_binary : Bytes
read_resource_encoding_binary = codes "binary"

-- The index record of a document; its body is loaded later.
unfoldable pub index_record :
    ProviderSkillKey
    → Bytes
    → SkillDocument
    → SkillResourceInfo
    → List Bytes
    → ProviderSkillIndexRecord
index_record key digest d resources warnings = record {
  key = key;
  name = d.name;
  description = d.description;
  display_name = d.display_name;
  insert = d.insert;
  arguments = d.arguments;
  tags = d.tags;
  resources = resources;
  raw_frontmatter = d.raw_frontmatter;
  warnings = warnings;
  digest = digest;
  skill_body = [];
}

module _ (fs : FileSystem) (decode : Bytes → Option Fields) (quote : Bytes → Bytes) where
  -- `LoadBody`
  unfoldable pub load_skill : Ctx → ProviderSkillKey → Result Bytes
  load_skill (some e) key = err e
  load_skill none key =
      if not (key.type == fs_type)
      then err Error.invalid_argument
      else elim (canonical_root fs key.location) [
        | err e ↦ err e
        | ok root ↦ load_skill_body fs decode quote none root
      ]

module _ (fs : FileSystem) (decode : Bytes → Option Fields) (quote sha256_hex : Bytes → Bytes) where
  -- `indexSkillDir`, and the record of its result
  unfoldable pub index_skill_dir :
      (ℕ → Ctx) → ProviderSkillKey → Bytes → Result ProviderSkillIndexRecord
  index_skill_dir ctx_at key root = elim (read_skill fs decode quote none root) [
    | err e ↦ err e
    | ok (raw, (document, warnings)) ↦
        elim (index_skill_resources fs quote ctx_at none (trim_space root)) [
          | err e ↦ err e
          | ok (resources, more) ↦ ok (
              index_record key (codes "sha256:" ++ sha256_hex raw) document resources
                (unique_strings (warnings ++ more)))
        ]
  ]

  -- `Index`
  unfoldable pub index_skill : (ℕ → Ctx) → Ctx → SkillDef → Result ProviderSkillIndexRecord
  index_skill ctx_at (some e) def = err e
  index_skill ctx_at none def =
      if is_blank def.type || not (def.type == fs_type)
      then err Error.invalid_argument
      else if is_blank def.name || is_blank def.location
      then err Error.invalid_argument
      else elim (canonical_root fs def.location) [
        | err e ↦ err e
        | ok root ↦
            elim (index_skill_dir ctx_at
              (record { type = def.type; name = def.name; location = root }) root) [
                | err e ↦ err e
                | ok rec ↦ if not (rec.name == def.name) then err Error.invalid_argument else ok rec
              ]
      ]

-- The encoding that a call means, if it is one.
unfoldable pub resource_encoding : Bytes → Option Bytes
resource_encoding encoding =
    let enc = if is_blank encoding then read_resource_encoding_text else encoding in
    if enc == read_resource_encoding_text || enc == read_resource_encoding_binary
    then some enc
    else none

abbrev pub receipt : Bytes → Option RunScriptOut → Result RunScriptOut
receipt location none = err (Error.other (codes "runscript returned nil result"))
receipt location (some res) = ok (record res { location = location })

module _ (fs : FileSystem) {Policy Exec Out : Type 0} (tools : Tools Policy Exec Out)
    (p : Config Policy Exec) where
  -- `ReadResource`
  unfoldable pub read_skill_resource : Ctx → ProviderSkillKey → Bytes → Bytes → Result Out
  read_skill_resource (some e) key location encoding = err e
  read_skill_resource none key location encoding =
      if not (key.type == fs_type)
      then err Error.invalid_argument
      else elim (canonical_root fs key.location) [
        | err e ↦ err e
        | ok root ↦
            if is_blank location
            then err Error.invalid_argument
            else elim (resource_encoding encoding) [
              | none ↦ err Error.invalid_argument
              | some enc ↦ tools.read_file root location enc
            ]
      ]

  -- `RunScript`
  unfoldable pub run_skill_script :
      Ctx
      → ProviderSkillKey
      → Bytes
      → List Bytes
      → List (Bytes × Bytes)
      → Bytes
      → Result RunScriptOut
  run_skill_script (some e) key script args env work_dir = err e
  run_skill_script none key script args env work_dir =
      let sp = trim_space script in
      if not (key.type == fs_type)
      then err Error.invalid_argument
      else if not p.run_scripts_enabled
      then err Error.run_script_unsupported
      else elim (canonical_root fs key.location) [
        | err e ↦ err e
        | ok root ↦
            if sp == []
            then err Error.invalid_argument
            else elim (tools.run_script p.exec_policy p.run_script_policy root sp args env
                work_dir) [ err e ↦ err e | ok res ↦ receipt sp res ]
      ]

-- The provider, as the runtime sees it.
unfoldable pub fs_provider :
    FileSystem
    → (Bytes → Option Fields)
    → (Bytes → Bytes)
    → (Bytes → Bytes)
    → (ℕ → Ctx)
    → {Policy Exec Out : Type 0} → Tools Policy Exec Out
    → Config Policy Exec
    → SkillProvider Out
fs_provider fs decode quote sha256_hex ctx_at tools p = record {
  type = fs_type;
  index = index_skill fs decode quote sha256_hex ctx_at;
  load_body = load_skill fs decode quote;
  read_resource = read_skill_resource fs tools p;
  run_script = run_skill_script fs tools p;
}
