-- ===== src/FsProvider/Resources.antt =====
-- `indexSkillResources`: the regular files below a skill's directory.
use agentskills_go.Base.{
  ℕ, ◌+◌, Bytes, bytes_eq, List, [], ◌∷◌, ◌++◌, none, some, codes, ltb, ◌==◌, if◌then◌else◌, length,
}
use agentskills_go.Document.Parse.{unique_warnings}
use agentskills_go.FsProvider.Roots.{skill_file_name}
use agentskills_go.FsProvider.System.{EntryInfo, DirEntry, WalkCall, FileSystem}
use agentskills_go.Spec.{Error, Result, ok, err, Ctx, SkillResourceInfo}
use agentskills_go.Text.{trim_space, is_blank}

abbrev pub max_skill_resource_locations : ℕ
max_skill_resource_locations = 1024

-- The variables that the callback changes.
pub record Scan : Type 0 where
  pub total_count : ℕ
  pub locations : List Bytes
  pub warnings : List Bytes

abbrev pub empty_scan : Scan
empty_scan = record { total_count = 0; locations = []; warnings = [] }

-- a regular file at `rel`
unfoldable pub count_file : Bytes → Scan → Scan
count_file rel scan = record scan {
  total_count = scan.total_count + 1;
  locations =
      if ltb (length scan.locations) max_skill_resource_locations
      then scan.locations ++ (rel ∷ [])
      else scan.locations;
}

-- `uniqueStrings`
unfoldable pub unique_strings : List Bytes → List Bytes
unique_strings values = unique_warnings [] values

module _ (fs : FileSystem) (quote : Bytes → Bytes) where
  unfoldable pub resource_rel_location : Bytes → Bytes → Bytes
  resource_rel_location root path = elim (fs.rel root path) [
    | none ↦ codes "."
    | some rel ↦ if is_blank rel then codes "." else fs.to_slash rel
  ]

  abbrev pub skip_warning : Bytes → Bytes → Bytes
  skip_warning rel text = codes "resource scan skipped " ++ (quote rel ++ (codes ": " ++ text))

  unfoldable pub skip_resource : Bytes → Bytes → Scan → Scan
  skip_resource rel text scan = record scan {
    warnings = scan.warnings ++ (skip_warning rel text ∷ []);
  }

  unfoldable pub scan_info : Bytes → EntryInfo → Scan → Scan
  scan_info rel (EntryInfo.failed text) scan = skip_resource rel text scan
  scan_info rel (EntryInfo.found is_regular) scan = if is_regular then count_file rel scan else scan

  unfoldable pub scan_entry : Bytes → DirEntry → Scan → Scan
  scan_entry rel d scan =
      if rel == codes "."
      then scan
      else if rel == skill_file_name
      then scan
      else if d.is_symlink
      then scan
      else if d.is_dir
      then scan
      else scan_info rel d.info scan

  -- The callback of `WalkDir`, under a live context.
  unfoldable pub scan_call : Bytes → WalkCall → Scan → Scan
  scan_call root call scan =
      let rel = resource_rel_location root call.path in
      elim call.walk_err [
        | some text ↦ skip_resource rel text scan
        | none ↦ elim call.entry [ none ↦ scan | some d ↦ scan_entry rel d scan ]
      ]

  -- `ctx_at n` is the context as the callback finds it `n` calls before the last.
  unfoldable pub scan_calls : (ℕ → Ctx) → Bytes → Scan → List WalkCall → Result Scan
  scan_calls ctx_at root scan [] = ok scan
  scan_calls ctx_at root scan (call ∷ calls) =
      let rest = scan_calls ctx_at root (scan_call root call scan) calls in
      elim (ctx_at (length calls)) [ some e ↦ err e | none ↦ rest ]

  abbrev pub resource_info : Scan → SkillResourceInfo
  resource_info scan = record {
    has_resources = ltb 0 scan.total_count;
    total_count = scan.total_count;
    locations = scan.locations;
    more_locations = ltb (length scan.locations) scan.total_count;
  }

  unfoldable pub index_skill_resources :
      (ℕ → Ctx) → Ctx → Bytes → Result (SkillResourceInfo × List Bytes)
  index_skill_resources ctx_at (some e) root_dir = err e
  index_skill_resources ctx_at none root_dir =
      let root = trim_space root_dir in
      if root == []
      then err Error.invalid_argument
      else elim (scan_calls ctx_at root empty_scan (fs.walk root)) [
        | err e ↦ err e
        | ok scan ↦ ok (resource_info scan, unique_strings scan.warnings)
      ]
