-- ===== src/Runtime/Calls.antt =====
-- The calls of the runtime. `now` and `later` are the readings of the clock of the store's
-- operations that a call makes.
use agentskills_go.Base.{
  ℕ, ℤ, Bytes, bytes_eq, Bool, true, ◌||◌, ◌&&◌, not, List, [], ◌∷◌, ◌++◌, Option, none, some,
  contains, lookup, ◌==◌, if◌then◌else◌,
}
use agentskills_go.Artifact.Body.{render_skill_body}
use agentskills_go.Artifact.Insert.{normalize_skill_insert}
use agentskills_go.Artifact.Placeholders.{Declared}
use agentskills_go.Catalog.Body.{Around, ensure_body}
use agentskills_go.Catalog.Interface.{catalog_ops}
use agentskills_go.Catalog.Listing.{UserEntry, list_user_entries}
use agentskills_go.Catalog.Ops.{add, remove, resolve_def, get_index}
use agentskills_go.Catalog.State.{Catalog}
use agentskills_go.Runtime.Filters.{
  SkillListFilter, normalize_skill_list_filter, to_catalog_user_filter,
}
use agentskills_go.Runtime.State.{
  Runtime, has_outer_space, is_incomplete, skill_activity_any, skill_activity_active,
  skill_activity_inactive,
}
use agentskills_go.Session.Activate.{Interference, active_keys}
use agentskills_go.Session.State.{Session}
use agentskills_go.Spec.{
  RenderSkillOut, Error, Result, ok, err, Ctx, ProviderSkillKey, ProviderSkillIndexRecord, SkillDef,
  SkillRecord, ProviderResolver, key_eq, def_eq,
}
use agentskills_go.Store.Ops.{get, touch, delete, prune_skill, put_session, new_session_in}
use agentskills_go.Store.State.{Store}

-- The loop of `NewSession` over the definitions: their keys, in order.
unfoldable pub resolve_defs :
    Catalog → List SkillDef → List ProviderSkillKey → List SkillDef → Result (List ProviderSkillKey)
resolve_defs c seen keys [] = ok keys
resolve_defs c seen keys (d ∷ ds) =
    if contains d seen then err Error.invalid_argument else elim (resolve_def c d) [
      | none ↦ err Error.skill_not_found
      | some k ↦ resolve_defs c (d ∷ seen) (keys ++ k ∷ []) ds
    ]

-- `CloseSession`
unfoldable pub close_session : Ctx → Bytes → Runtime → Runtime × Result (Unit {0})
close_session (some e) id rt = (rt, err e)
close_session none id rt =
    if id == [] then (rt, ok tt) else (record rt { sessions = delete id rt.sessions }, ok tt)

unfoldable pub render_out : ProviderSkillIndexRecord → Bytes → Declared → RenderSkillOut
render_out idx body values =
    let rendered = render_skill_body body idx.arguments values in
    record {
      name = if idx.name == [] then idx.key.name else idx.name;
      description = idx.description;
      display_name = idx.display_name;
      insert = (normalize_skill_insert idx.insert).0;
      tags = idx.tags;
      resources = idx.resources;
      text = rendered.text;
      arguments = idx.arguments;
      applied_arguments = rendered.applied_arguments;
      raw_frontmatter = idx.raw_frontmatter;
      warnings = idx.warnings ++ rendered.warnings;
    }

-- `s.ActiveKeys` on the session object of this id: its touch is the store's. `between` and `meanwhile`
-- are what the other goroutines do to the object and to the store while it holds neither lock.
unfoldable pub keys_in_session :
    {Out : Type 0}
    → ProviderResolver Out
    → ℕ
    → (Session → Session)
    → (Store → Store)
    → Bytes
    → Catalog
    → Store
    → Store × Result (List ProviderSkillKey)
keys_in_session providers later between meanwhile id c st =
    let st' = touch later id st in
    elim (lookup id st'.heap) [
      | none ↦ (meanwhile st', err Error.session_not_found)
      | some s ↦
          let (s', r) = active_keys (catalog_ops providers) (λ x. x) between none c s in
          (put_session id s' (meanwhile st'), r)
    ]

-- the records of the entries whose key is active, or is not
unfoldable pub records_of : (ProviderSkillKey → Bool) → List UserEntry → List SkillRecord
records_of p [] = []
records_of p (u ∷ us) = let rest = records_of p us in if p u.key then u.record_of ∷ rest else rest

-- `ListSkills`
unfoldable pub list_skills :
    {Out : Type 0}
    → ProviderResolver Out
    → ℕ
    → ℕ
    → (Session → Session)
    → (Store → Store)
    → Ctx
    → Option SkillListFilter
    → Runtime
    → Runtime × Result (List SkillRecord)
list_skills providers now later between meanwhile (some e) filter rt = (rt, err e)
list_skills providers now later between meanwhile none filter rt =
    let cfg = normalize_skill_list_filter filter in
    let any = cfg.activity == skill_activity_any in
    let active = cfg.activity == skill_activity_active in
    let entries = list_user_entries (to_catalog_user_filter cfg) rt.catalog in
    let (st1, found) = get now cfg.session_id rt.sessions in
    let (st2, keys) =
      keys_in_session providers later between meanwhile cfg.session_id rt.catalog st1 in
    if not (any || cfg.activity == skill_activity_inactive || active)
    then (rt, err Error.invalid_argument)
    else if active && cfg.session_id == []
    then (rt, err Error.invalid_argument)
    else if cfg.session_id == []
    then (rt, ok (records_of (λ k. true) entries))
    else elim found [
      | none ↦ (record rt { sessions = st1 }, err Error.session_not_found)
      | some id ↦ elim keys [
        | err e ↦ (record rt { sessions = st2 }, err e)
        | ok ks ↦ (
          record rt { sessions = st2 },
          ok (
              records_of (λ k. any || (if active then contains k ks else not (contains k ks)))
                entries),
        )
      ]
    ]

module _ (sha256_hex : Bytes → Bytes) {Out : Type 0} (providers : ProviderResolver Out) where
  -- `AddSkill`
  unfoldable pub add_skill : Ctx → SkillDef → Runtime → Runtime × Result SkillRecord
  add_skill (some e) def rt = (rt, err e)
  add_skill none def rt =
      let (c, r) = add sha256_hex providers none def rt.catalog in
      if has_outer_space def
      then (rt, err Error.invalid_argument)
      else (record rt { catalog = c }, r)

  -- `RemoveSkill`
  unfoldable pub remove_skill : Ctx → SkillDef → Runtime → Runtime × Result SkillRecord
  remove_skill (some e) def rt = (rt, err e)
  remove_skill none def rt =
      let (c, r) = remove sha256_hex def rt.catalog in
      if has_outer_space def then (rt, err Error.invalid_argument) else elim r [
        | none ↦ (record rt { catalog = c }, err Error.skill_not_found)
        | some (rec, canon) ↦
            (record rt { catalog = c; sessions = prune_skill canon rt.sessions }, ok rec)
      ]

module _ {Out : Type 0} (providers : ProviderResolver Out) where
  -- `NewSession`, with the two options of a session and what the id generator returns.
  unfoldable pub new_runtime_session :
      ℕ
      → ℕ
      → Result Bytes
      → (ℕ → Interference Catalog)
      → (Store → Store)
      → Ctx
      → ℤ
      → List SkillDef
      → Runtime
      → Runtime × Result (Bytes × List SkillDef)
  new_runtime_session now later uuid others meanwhile (some e) max_active defs rt = (rt, err e)
  new_runtime_session now later uuid others meanwhile none max_active defs rt =
      elim (resolve_defs rt.catalog [] [] defs) [
        | err e ↦ (rt, err e)
        | ok keys ↦
            let ((st, c), r) =
              new_session_in (catalog_ops providers) now later uuid others meanwhile none
                (record { max_active_per_session = max_active; active_keys = keys })
                (rt.sessions, rt.catalog) in
            (
              record rt { catalog = c; sessions = st },
              elim r [ err e ↦ err e | ok (id, handles) ↦ ok (id, defs) ],
            )
      ]

  -- `RenderSkill`
  unfoldable pub render_skill :
      (ℕ → Around) → Ctx → SkillDef → Declared → Runtime → Runtime × Result RenderSkillOut
  render_skill around (some e) def values rt = (rt, err e)
  render_skill around none def values rt =
      if has_outer_space def || is_incomplete def
      then (rt, err Error.invalid_argument)
      else elim (resolve_def rt.catalog def) [
        | none ↦ (rt, err Error.skill_not_found)
        | some key ↦ elim (get_index rt.catalog key) [
          | none ↦ (rt, err Error.skill_not_found)
          | some idx ↦
              let (c, body) = ensure_body providers around none key rt.catalog in
              (
                record rt { catalog = c },
                elim body [ err e ↦ err e | ok b ↦ ok (render_out idx b values) ],
              )
        ]
      ]
