-- ===== src/Tests/Files.antt =====
-- A provider over a file system with one skill.
use agentskills_go.Base.{
  ℕ, Bytes, bytes_eq, nat_eq, true, false, List, [], ◌∷◌, ◌++◌, Option, none, some, codes, ◌≡◌,
  refl, pos, ◌≤◌, ◌==◌, length, drop, ltb,
}
use agentskills_go.FsProvider.Bounds.{index_skill_resources-bounds}
use agentskills_go.FsProvider.Calls.{
  fs_type, index_record, index_skill_dir, index_skill, load_skill, resource_encoding,
  read_skill_resource, run_skill_script,
}
use agentskills_go.FsProvider.Config.{
  Config, ProviderOption, with_run_scripts, normalize_extensions, apply_provider_option,
  apply_provider_options, default_config, effective_policy, harden, new_provider,
}
use agentskills_go.FsProvider.Indexed.{IsCanonical, IsIndexed, load_skill-index_skill}
use agentskills_go.FsProvider.Resources.{
  count_file, unique_strings, resource_rel_location, skip_resource, scan_info, scan_entry,
  scan_call, scan_calls, index_skill_resources, max_skill_resource_locations,
}
use agentskills_go.FsProvider.Roots.{
  resolved, directory, canonical_root, read_all_limited, read_skill_file, parsed_skill, read_skill,
  load_skill_body,
}
use agentskills_go.FsProvider.Scripts.{
  scripts_enabled, new_provider-scripts, run_skill_script-scoped,
}
use agentskills_go.FsProvider.System.{regular, EntryInfo, DirEntry, FileSystem, Tools}
use agentskills_go.Spec.{
  ok, Ctx, ProviderSkillKey, ProviderSkillIndexRecord, SkillDef, SkillResourceInfo, RunScriptOut,
}
use agentskills_go.Tests.Data.{digest}
use agentskills_go.Tests.Documents.{documents, decode, quote, content, document, notes}
use agentskills_go.Text.{trim_space}

files : Unit {0}
unfolding documents index_record index_skill_dir index_skill load_skill resource_encoding
    read_skill_resource run_skill_script normalize_extensions apply_provider_option
    apply_provider_options default_config effective_policy harden new_provider count_file
    unique_strings resource_rel_location skip_resource scan_info scan_entry scan_call scan_calls
    index_skill_resources resolved directory canonical_root read_all_limited read_skill_file
    parsed_skill read_skill load_skill_body
files = tt

abbrev root : Bytes
root = codes "/s/a"

abbrev file_entry : DirEntry
file_entry = record { is_symlink = false; is_dir = false; info = EntryInfo.found true }

-- the directory `/s/a` with SKILL.md and one more file
abbrev disk : FileSystem
disk = record {
  is_windows = false;
  clean = λ p. p;
  has_volume = λ p. false;
  is_abs = λ p. true;
  absolute = λ p. some p;
  eval_symlinks = λ p. some p;
  stat_is_dir = λ p. some (p == root);
  lstat = λ p. some regular;
  read_limited = λ n p. some content;
  join = λ p q. p ++ (codes "/" ++ q);
  base = λ p. drop 3 p;
  rel = λ p q. some (drop 5 q);
  to_slash = λ p. p;
  walk = λ p.
      record { path = codes "/s/a/SKILL.md"; entry = some file_entry; walk_err = none }
      ∷ record { path = codes "/s/a/run.sh"; entry = some file_entry; walk_err = none }
      ∷ [];
}

abbrev script_out : RunScriptOut
script_out = record {
  location = [];
  exit_code = pos 0;
  stdout = codes "done";
  stderr = [];
  timed_out = false;
  duration_ms = pos 1;
}

-- a policy is its extensions
abbrev tools : Tools (List Bytes) (Unit {0}) Bytes
tools = record {
  to_lower = λ s. s;
  default_execution_policy = tt;
  default_run_script_policy = [];
  normalize_policy = λ p. ok p;
  allowed_extensions = λ p. p;
  set_allowed_extensions = λ exts p. exts;
  read_file = λ r path enc. ok path;
  run_script = λ x p r path args env work_dir. ok (some script_out);
}

abbrev enabled : List (Option (ProviderOption (List Bytes) (Unit {0})))
enabled = some (with_run_scripts true) ∷ []

abbrev config : Config (List Bytes) (Unit {0})
config = record {
  run_scripts_enabled = true;
  exec_policy = tt;
  run_script_policy = codes ".sh" ∷ codes ".py" ∷ [];
  allowed_script_ext = [];
  allowed_script_ext_set = false;
}

abbrev live : ℕ → Ctx
live n = none

abbrev def_s : SkillDef
def_s = record { type = codes "fs"; name = codes "a"; location = codes " /s/a" }

abbrev key_s : ProviderSkillKey
key_s = record { type = codes "fs"; name = codes "a"; location = root }

abbrev one_file : SkillResourceInfo
one_file = record {
  has_resources = true;
  total_count = 1;
  locations = codes "run.sh" ∷ [];
  more_locations = false;
}

abbrev record_s : ProviderSkillIndexRecord
record_s = record {
  key = key_s;
  name = document.name;
  description = document.description;
  display_name = document.display_name;
  insert = document.insert;
  arguments = document.arguments;
  tags = document.tags;
  resources = one_file;
  raw_frontmatter = document.raw_frontmatter;
  warnings = notes;
  digest = codes "sha256:" ++ digest content;
  skill_body = [];
}

indexed : index_skill disk decode quote digest live none def_s ≡ ok record_s
unfolding files
indexed = refl

found : index_skill_resources disk quote live none root ≡ ok (one_file, [])
unfolding files
found = refl

made : new_provider tools false enabled ≡ ok config
unfolding files
made = refl

ran :
    run_skill_script disk tools config none key_s (codes " run.sh") [] [] []
    ≡ ok (record script_out { location = codes "run.sh" })
unfolding files
ran = refl

root-IsCanonical : IsCanonical disk root
root-IsCanonical = record {
  trimmed = unfold files in refl;
  shown = refl;
  has_no_nul = refl;
  cleaned = refl;
  rooted = refl;
  same = refl;
  followed = refl;
}

load_skill-index_skill_example :
    (i : IsIndexed disk decode quote digest def_s record_s) × (load_skill disk decode quote none
        key_s
      ≡ ok i.document.markdown_body)
load_skill-index_skill_example =
    load_skill-index_skill disk decode quote digest live def_s record_s indexed root-IsCanonical

index_skill_resources-bounds_example :
    (length one_file.locations ≤ max_skill_resource_locations)
    × (one_file.has_resources ≡ ltb 0 one_file.total_count)
    × (one_file.more_locations ≡ ltb max_skill_resource_locations one_file.total_count)
index_skill_resources-bounds_example =
    index_skill_resources-bounds disk quote live root one_file [] found

new_provider-scripts_example :
    (config.run_scripts_enabled ≡ scripts_enabled tools false enabled)
    × ((q : List Bytes) × (tools.normalize_policy q ≡ ok config.run_script_policy))
new_provider-scripts_example = new_provider-scripts tools false enabled config made

run_skill_script-scoped_example :
    (config.run_scripts_enabled ≡ true)
    × (key_s.type ≡ fs_type)
    × ((r : Bytes) × (res : RunScriptOut) × (canonical_root disk key_s.location ≡ ok r)
        × (tools.run_script config.exec_policy config.run_script_policy r
              (trim_space (codes " run.sh"))
              []
              []
              []
            ≡ ok (some res))
        × (record script_out { location = codes "run.sh" }
            ≡ record res { location = trim_space (codes " run.sh") }))
run_skill_script-scoped_example =
    run_skill_script-scoped disk tools config key_s (codes " run.sh") [] [] []
      (record script_out { location = codes "run.sh" }) ran
