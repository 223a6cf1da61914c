-- ===== src/FsProvider/Indexed.antt =====
-- What `Index` has found, `LoadBody` finds again.
use agentskills_go.Base.{
  ℕ, Bytes, bytes_eq, nat_eq, Bool, true, false, ◌&&◌, List, [], ◌++◌, Option, none, some, codes,
  ◌≡◌, ◌∙◌, refl, sym, ap, subst, arith, inl, inr, Option-cases, ◌==◌, if◌then◌else◌, contains,
}
use agentskills_go.FsProvider.Calls.{
  fs_type, index_record, index_skill_dir, index_skill, load_skill,
}
use agentskills_go.FsProvider.Resources.{index_skill_resources, unique_strings}
use agentskills_go.FsProvider.Roots.{
  resolved, directory, canonical_root, read_skill, load_skill_body,
}
use agentskills_go.FsProvider.System.{FileSystem}
use agentskills_go.Spec.{
  Result-cases, ok, Ctx, Fields, SkillDef, SkillDocument, SkillResourceInfo, ProviderSkillKey,
  ProviderSkillIndexRecord,
}
use agentskills_go.Text.{trim_space, is_blank}

-- A path that is canonical already: `Clean`, `Abs` and `EvalSymlinks` leave it, and it has neither
-- white space around it nor a NUL byte.
pub record IsCanonical (fs : FileSystem) (path : Bytes) : Type 0 where
  pub trimmed : trim_space path ≡ path
  pub shown : (path == []) ≡ false
  pub has_no_nul : contains 0 path ≡ false
  pub cleaned : fs.clean path ≡ path
  pub rooted : fs.is_abs path ≡ true
  pub same : fs.absolute path ≡ some path
  pub followed : fs.eval_symlinks path ≡ some path

module _ (fs : FileSystem) where
  directory-same : (path root : Bytes) → directory fs path ≡ ok root → path ≡ root
  unfolding directory
  directory-same path root h = ground arith

  directory-ok : (path root : Bytes) → directory fs path ≡ ok root → directory fs root ≡ ok root
  directory-ok path root h = subst (λ x. directory fs x ≡ ok root) (directory-same path root h) h

  canonical_root-directory :
      (p root : Bytes) → canonical_root fs p ≡ ok root → directory fs root ≡ ok root
  unfolding canonical_root
  canonical_root-directory p root h = elim (Option-cases (fs.absolute (fs.clean (trim_space p)))) [
    | inl e ↦ absurd (ground arith)
    | inr (abs, e) ↦ directory-ok (resolved fs abs) root (ground arith)
  ]

  resolved-same : (root : Bytes) → IsCanonical fs root → resolved fs root ≡ root
  unfolding resolved
  resolved-same root c = rw (c.followed, resolved) (either (is_blank root) root)
    where
      either : (b : Bool) (x : Bytes) → (if b then x else x) ≡ x
      either true x = refl
      either false x = refl

  -- A canonical root that was found is found again.
  canonical_root_twice :
      (p root : Bytes)
      → IsCanonical fs root
      → canonical_root fs p ≡ ok root
      → canonical_root fs root ≡ ok root
  unfolding canonical_root
  canonical_root_twice p root c h =
      rw
        (
          c.trimmed,
          c.shown,
          c.has_no_nul,
          c.cleaned,
          c.rooted,
          c.same,
          resolved-same root c,
          canonical_root-directory p root h,
          and_false fs.is_windows (fs.has_volume root),
        )
        refl
    where
      and_false : (a b : Bool) → (a && (b && false)) ≡ false
      and_false a b = ground arith

module _ (fs : FileSystem) (decode : Bytes → Option Fields) (quote sha256_hex : Bytes → Bytes) where
  -- What a successful `Index` has read.
  pub record IsIndexed (def : SkillDef) (rec : ProviderSkillIndexRecord) : Type 0 where
    pub root : Bytes
    pub raw : Bytes
    pub document : SkillDocument
    pub parse_warnings : List Bytes
    pub resources : SkillResourceInfo
    pub warnings : List Bytes
    pub typed : def.type ≡ fs_type
    pub located : canonical_root fs def.location ≡ ok root
    pub read : read_skill fs decode quote none root ≡ ok (raw, (document, parse_warnings))
    pub named : document.name ≡ def.name
    pub recorded :
        rec
        ≡ index_record
            (record { type = def.type; name = def.name; location = root })
            (codes "sha256:" ++ sha256_hex raw)
            document
            resources
            warnings

  -- What a directory's index says.
  record IsRead (key : ProviderSkillKey) (root : Bytes) (rec : ProviderSkillIndexRecord)
      : Type 0 where
    raw : Bytes
    document : SkillDocument
    parse_warnings : List Bytes
    resources : SkillResourceInfo
    warnings : List Bytes
    read : read_skill fs decode quote none root ≡ ok (raw, (document, parse_warnings))
    recorded :
        rec ≡ index_record key (codes "sha256:" ++ sha256_hex raw) document resources warnings

  index_skill_dir-IsRead :
      (ctx_at : ℕ → Ctx) (key : ProviderSkillKey) (root : Bytes) (rec : ProviderSkillIndexRecord)
      → index_skill_dir fs decode quote sha256_hex ctx_at key root ≡ ok rec
      → IsRead key root rec
  unfolding index_skill_dir
  index_skill_dir-IsRead ctx_at key root rec h =
      elim (Result-cases (read_skill fs decode quote none root)) [
        | inr (x, e) ↦ absurd (ground arith)
        | inl ((raw, (document, w)), e) ↦
            elim (Result-cases (index_skill_resources fs quote ctx_at none (trim_space root))) [
              | inr (x, f) ↦ absurd (ground arith)
              | inl ((resources, more), f) ↦ record {
                raw = raw;
                document = document;
                parse_warnings = w;
                resources = resources;
                warnings = unique_strings (w ++ more);
                read = e;
                recorded = ground arith;
              }
            ]
      ]

  IsRead-name :
      (key : ProviderSkillKey) (root : Bytes) (rec : ProviderSkillIndexRecord)
      (r : IsRead key root rec)
      → r.document.name ≡ rec.name
  unfolding index_record
  IsRead-name key root rec r = sym (ap (λ x. x.name) r.recorded)

  pub index_skill-IsIndexed :
      (ctx_at : ℕ → Ctx) (def : SkillDef) (rec : ProviderSkillIndexRecord)
      → index_skill fs decode quote sha256_hex ctx_at none def ≡ ok rec
      → IsIndexed def rec
  unfolding index_skill
  index_skill-IsIndexed ctx_at def rec h = elim (Result-cases (canonical_root fs def.location)) [
    | inr (x, e) ↦ absurd (ground arith)
    | inl (root, e) ↦
        let key : ProviderSkillKey = record { type = def.type; name = def.name; location = root } in
        let dir = index_skill_dir fs decode quote sha256_hex ctx_at key root in
        elim (Result-cases dir) [
          | inr (x, f) ↦ absurd (ground arith)
          | inl (found, f) ↦
              let same : found ≡ rec = ground arith in
              let r = index_skill_dir-IsRead ctx_at key root rec (f ∙ ap ok same) in
              record {
                root = root;
                raw = r.raw;
                document = r.document;
                parse_warnings = r.parse_warnings;
                resources = r.resources;
                warnings = r.warnings;
                typed = ground (arith, bytes_eq.beq_iff def.type fs_type);
                located = e;
                read = r.read;
                named =
                    IsRead-name key root rec r
                    ∙ ground (arith, bytes_eq.beq_iff found.name def.name, ap (λ x. x.name) same);
                recorded = r.recorded;
              }
        ]
  ]

  load_skill_body-read :
      (root raw : Bytes) (document : SkillDocument) (w : List Bytes)
      → read_skill fs decode quote none root ≡ ok (raw, (document, w))
      → load_skill_body fs decode quote none root ≡ ok document.markdown_body
  unfolding load_skill_body
  load_skill_body-read root raw document w r = rw (r, load_skill_body) refl

  load_skill-root :
      (key : ProviderSkillKey) (root : Bytes)
      → key.type ≡ fs_type
      → canonical_root fs key.location ≡ ok root
      → load_skill fs decode quote none key ≡ load_skill_body fs decode quote none root
  unfolding load_skill
  load_skill-root key root t c = rw (t, c, load_skill) refl

  -- If `Index` succeeds, and the root that it has found is canonical, then `LoadBody` of its key gives the
  -- body of the very document that the index record describes.
  pub load_skill-index_skill :
      (ctx_at : ℕ → Ctx) (def : SkillDef) (rec : ProviderSkillIndexRecord)
      → index_skill fs decode quote sha256_hex ctx_at none def ≡ ok rec
      → IsCanonical fs rec.key.location
      → (i : IsIndexed def rec) × (load_skill fs decode quote none rec.key
          ≡ ok i.document.markdown_body)
  unfolding index_record
  load_skill-index_skill ctx_at def rec h c =
      let i = index_skill-IsIndexed ctx_at def rec h in
      let at : rec.key.location ≡ i.root = ap (λ x. x.key.location) i.recorded in
      let again =
        canonical_root_twice fs def.location i.root (subst (IsCanonical fs) at c) i.located in
      (
        i,
        load_skill-root rec.key i.root (ap (λ x. x.key.type) i.recorded ∙ i.typed)
              (ap (canonical_root fs) at ∙ again)
            ∙ load_skill_body-read i.root i.raw i.document i.parse_warnings i.read,
      )
