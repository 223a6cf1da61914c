-- ===== src/FsProvider/Roots.antt =====
-- `canonicalRoot`, and reading SKILL.md.
use agentskills_go.Base.{
  ◌+◌, Bytes, bytes_eq, nat_eq, ◌&&◌, not, List, [], Option, none, some, codes, ltb, ◌==◌,
  if◌then◌else◌, length, contains,
}
use agentskills_go.Document.Limits.{good, bad, max_skill_document_bytes}
use agentskills_go.Document.Parse.{parse_skill_document}
use agentskills_go.FsProvider.System.{FileKind, symlink, other_file, FileSystem}
use agentskills_go.Spec.{Error, Result, ok, err, Ctx, Fields, SkillDocument}
use agentskills_go.Text.{trim_space, is_blank}

abbrev pub skill_file_name : Bytes
skill_file_name = codes "SKILL.md"

abbrev pub failed_with {ℓ} : {A : Type ℓ} → Bytes → Result A
failed_with text = err (Error.other text)

-- Why a directory entry is not a SKILL.md to be read; a file that is not there is left to `os.Open`.
abbrev pub refused_kind : Option FileKind → Option Error
refused_kind (some symlink) = some (Error.other (codes "SKILL.md must not be a symlink"))
refused_kind (some other_file) = some (Error.other (codes "SKILL.md must be a regular file"))
refused_kind _ = none

module _ (fs : FileSystem) where
  -- `filepath.EvalSymlinks`, where it succeeds with a path that is not blank
  unfoldable pub resolved : Bytes → Bytes
  resolved abs = elim (fs.eval_symlinks abs) [
    | none ↦ abs
    | some path ↦ if is_blank path then abs else path
  ]

  unfoldable pub directory : Bytes → Result Bytes
  directory path = elim (fs.stat_is_dir path) [
    | none ↦ err Error.invalid_argument
    | some is_dir ↦ if is_dir then ok path else err Error.invalid_argument
  ]

  unfoldable pub canonical_root : Bytes → Result Bytes
  canonical_root p =
      let root = trim_space p in
      let clean = fs.clean root in
      if root == []
      then err Error.invalid_argument
      else if contains 0 root
      then err Error.invalid_argument
      else if fs.is_windows && (fs.has_volume clean && not (fs.is_abs clean))
      then err Error.invalid_argument
      else elim (fs.absolute clean) [
        | none ↦ err Error.invalid_argument
        | some abs ↦ directory (resolved abs)
      ]

  -- `readAllLimitedAndDigest`, without the digest
  unfoldable pub read_all_limited : Bytes → Result Bytes
  read_all_limited path = elim (fs.read_limited (max_skill_document_bytes + 1) path) [
    | none ↦ failed_with (codes "read")
    | some raw ↦
        if ltb max_skill_document_bytes (length raw)
        then failed_with (codes "SKILL.md too large")
        else ok raw
  ]

  unfoldable pub read_skill_file : Bytes → Result Bytes
  read_skill_file root =
      let path = fs.join root skill_file_name in
      elim (refused_kind (fs.lstat path)) [ some e ↦ err e | none ↦ read_all_limited path ]

  module _ (decode : Bytes → Option Fields) (quote : Bytes → Bytes) where
    unfoldable pub parsed_skill : Bytes → Bytes → Result (SkillDocument × List Bytes)
    parsed_skill root raw = elim (parse_skill_document decode quote (fs.base root) raw) [
      | bad f ↦ failed_with (codes "invalid SKILL.md")
      | good d ↦ ok d
    ]

    -- The common part of `indexSkillDir` and `loadSkillBody`: the content and the document.
    unfoldable pub read_skill : Ctx → Bytes → Result (Bytes × (SkillDocument × List Bytes))
    read_skill (some e) root_dir = err e
    read_skill none root_dir =
        let root = trim_space root_dir in
        if root == [] then err Error.invalid_argument else elim (read_skill_file root) [
          | err e ↦ err e
          | ok raw ↦ elim (parsed_skill root raw) [ err e ↦ err e | ok d ↦ ok (raw, d) ]
        ]

    unfoldable pub load_skill_body : Ctx → Bytes → Result Bytes
    load_skill_body ctx root_dir = elim (read_skill ctx root_dir) [
      | err e ↦ err e
      | ok (raw, (document, warnings)) ↦ ok document.markdown_body
    ]
