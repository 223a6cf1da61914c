-- ===== src/Catalog/Ops.antt =====
-- `Add`, `Remove` and the lookups.
use agentskills_go.Base.{
  Bytes, bytes_eq, not, ◌||◌, [], Option, none, some, is_some, ◌==◌, lookup, map_insert, map_delete,
  if◌then◌else◌,
}
use agentskills_go.Artifact.Insert.{normalize_skill_insert}
use agentskills_go.Catalog.Names.{recompute_llm_names}
use agentskills_go.Catalog.State.{Entry, Catalog, skill_record_from}
use agentskills_go.Spec.{
  Error, Result, ok, err, Ctx, ProviderSkillKey, SkillDef, SkillHandle, ProviderSkillIndexRecord,
  SkillRecord, ProviderResolver, key_eq, def_eq, handle_eq,
}
use agentskills_go.Text.{trim_space, is_blank}

-- `ResolveDef`
unfoldable pub resolve_def : Catalog → SkillDef → Option ProviderSkillKey
resolve_def c def = lookup def c.by_def

-- `GetIndex`
unfoldable pub get_index : Catalog → ProviderSkillKey → Option ProviderSkillIndexRecord
get_index c key = elim (lookup key c.by_key) [ none ↦ none | some e ↦ some e.idx ]

unfoldable pub norm_handle : SkillHandle → SkillHandle
norm_handle h = record { name = trim_space h.name; location = trim_space h.location }

-- `ResolveHandle`
unfoldable pub resolve_handle : Catalog → SkillHandle → Option ProviderSkillKey
resolve_handle c h = lookup (norm_handle h) c.handle_index

-- `HandleForKey`
unfoldable pub handle_for_key : Catalog → ProviderSkillKey → Option SkillHandle
handle_for_key c key = elim (lookup key c.by_key) [
  | none ↦ none
  | some e ↦ some (record { name = e.llm_name; location = e.def.location })
]

-- What `Add` asks of the record that a provider returns, with its insert value normalised.
unfoldable pub check_index : SkillDef → ProviderSkillIndexRecord → Result ProviderSkillIndexRecord
check_index def idx =
    if not (idx.key.type == def.type)
    then err Error.invalid_argument
    else if not (idx.key.name == def.name)
    then err Error.invalid_argument
    else if is_blank idx.key.type || is_blank idx.key.name || is_blank idx.key.location
    then err Error.invalid_argument
    else if not (normalize_skill_insert idx.insert).1
    then err Error.invalid_argument
    else ok (record idx { insert = (normalize_skill_insert idx.insert).0 })

abbrev pub new_entry : SkillDef → ProviderSkillIndexRecord → Entry
new_entry def idx = record {
  def = def;
  idx = idx;
  body_loaded = not (idx.skill_body == []);
  llm_name = [];
  body_wait = none;
  body_err = none;
}

-- The catalog with a new entry, before its names are computed.
abbrev pub with_entry : SkillDef → ProviderSkillIndexRecord → Catalog → Catalog
with_entry def idx c = record c {
  by_key = map_insert idx.key (new_entry def idx) c.by_key;
  by_def = map_insert def idx.key c.by_def;
}

-- The catalog without an entry, before its names are computed.
abbrev pub without_entry : SkillDef → ProviderSkillKey → Catalog → Catalog
without_entry def key c = record c {
  by_key = map_delete key c.by_key;
  by_def = map_delete def c.by_def;
}

module _ (sha256_hex : Bytes → Bytes) where
  -- The stretch of `Add` under the lock.
  unfoldable pub insert_entry :
      SkillDef → ProviderSkillIndexRecord → Catalog → Catalog × Result SkillRecord
  insert_entry def idx c =
      if is_some (lookup idx.key c.by_key)
      then (c, err Error.skill_already_exists)
      else if is_some (lookup def c.by_def)
      then (c, err Error.skill_already_exists)
      else (recompute_llm_names sha256_hex (with_entry def idx c), ok (skill_record_from def idx))

  -- `Add`
  unfoldable pub add :
      {Out : Type 0}
      → ProviderResolver Out
      → Ctx
      → SkillDef
      → Catalog
      → Catalog × Result SkillRecord
  add providers (some e) def c = (c, err e)
  add providers none def c =
      if is_blank def.type || is_blank def.name || is_blank def.location
      then (c, err Error.invalid_argument)
      else elim (providers def.type) [
        | none ↦ (c, err Error.provider_not_found)
        | some p ↦ elim (p.index none def) [
          | err e ↦ (c, err e)
          | ok idx ↦ elim (check_index def idx) [
            | err e ↦ (c, err e)
            | ok idx' ↦ insert_entry def idx' c
          ]
        ]
      ]

  -- `Remove`
  unfoldable pub remove : SkillDef → Catalog → Catalog × Option (SkillRecord × ProviderSkillKey)
  remove def c = elim (lookup def c.by_def) [
    | none ↦ (c, none)
    | some canon ↦ elim (lookup canon c.by_key) [
      | none ↦ (record c { by_def = map_delete def c.by_def }, none)
      | some e ↦ (
        recompute_llm_names sha256_hex (without_entry e.def canon c),
        some (skill_record_from e.def e.idx, canon),
      )
    ]
  ]
