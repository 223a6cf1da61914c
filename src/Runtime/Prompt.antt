-- ===== src/Runtime/Prompt.antt =====
-- skillprompt.go: `SkillsPrompt` and its filter.
use agentskills_go.Base.{
  ℕ, ◌+◌, Bytes, bytes_eq, ◌&&◌, ◌||◌, not, List, [], ◌∷◌, ◌++◌, Option, none, some, codes,
  contains, ◌==◌, if◌then◌else◌,
}
use agentskills_go.Artifact.Body.{render_skill_body}
use agentskills_go.Catalog.Body.{Around, ensure_body}
use agentskills_go.Catalog.Filters.{PromptFilter}
use agentskills_go.Catalog.Listing.{list_prompt_index_records}
use agentskills_go.Catalog.Ops.{get_index, handle_for_key}
use agentskills_go.Catalog.State.{Catalog}
use agentskills_go.Prompt.Texts.{
  AvailableSkillItem, ActiveSkillItem, available_skills_prompt, active_skills_prompt,
}
use agentskills_go.Runtime.Calls.{keys_in_session}
use agentskills_go.Runtime.Filters.{normalize_types, normalize_allow, normalize_activity}
use agentskills_go.Runtime.State.{
  Runtime, skill_activity_any, skill_activity_active, skill_activity_inactive,
}
use agentskills_go.Spec.{
  Error, Result, ok, err, Ctx, ProviderSkillKey, ProviderSkillIndexRecord, SkillDef, SkillHandle,
  ProviderResolver, key_eq, skill_insert_instructions,
}
use agentskills_go.Session.State.{Session}
use agentskills_go.Store.Ops.{get}
use agentskills_go.Store.State.{Store}
use agentskills_go.Text.{trim_space, is_blank}

pub record SkillFilter : Type 0 where
  pub types : List Bytes
  pub name_prefix : Bytes
  pub location_prefix : Bytes
  pub allow_skills : List SkillDef
  pub session_id : Bytes
  pub activity : Bytes

-- `none` is a nil filter.
unfoldable pub normalize_skills_prompt_filter : Option SkillFilter → SkillFilter
normalize_skills_prompt_filter none = record {
  types = [];
  name_prefix = [];
  location_prefix = [];
  allow_skills = [];
  session_id = [];
  activity = skill_activity_any;
}
normalize_skills_prompt_filter (some f) = record {
  types = normalize_types [] f.types;
  name_prefix = f.name_prefix;
  location_prefix = f.location_prefix;
  allow_skills = normalize_allow [] f.allow_skills;
  session_id = trim_space f.session_id;
  activity = normalize_activity f.activity;
}

unfoldable pub to_catalog_prompt_filter : SkillFilter → PromptFilter
to_catalog_prompt_filter f = record {
  types = f.types;
  llm_name_prefix = f.name_prefix;
  location_prefix = f.location_prefix;
  inserts = skill_insert_instructions ∷ [];
  allow_defs = f.allow_skills;
}

-- The parts that are not blank, each on a new line.
unfoldable pub wrapped_parts : List Bytes → Bytes
wrapped_parts [] = []
wrapped_parts (p ∷ ps) =
    let rest = wrapped_parts ps in if is_blank p then rest else codes "\n" ++ (p ++ rest)

unfoldable pub wrap_skills_prompt : List Bytes → Bytes
wrap_skills_prompt parts =
    let body = wrapped_parts parts in
    codes "<<<SKILLS_PROMPT>>>"
    ++ (body ++ ((if body == [] then [] else codes "\n") ++ codes "<<<END_SKILLS_PROMPT>>>"))

abbrev pub record_keys : List ProviderSkillIndexRecord → List ProviderSkillKey
record_keys [] = []
record_keys (r ∷ rs) = r.key ∷ record_keys rs

-- The item of a listed skill, `none` if it is active or has no handle.
unfoldable pub available_entry :
    Catalog → List ProviderSkillKey → ProviderSkillIndexRecord → Option AvailableSkillItem
available_entry c active r = if contains r.key active then none else elim (handle_for_key c r.key) [
  | none ↦ none
  | some h ↦ some (record {
    name = h.name;
    description = r.description;
    location = h.location;
    resources = r.resources;
  })
]

abbrev pub some_before {ℓ} : {A : Type ℓ} → Option A → List A → List A
some_before none xs = xs
some_before (some x) xs = x ∷ xs

unfoldable pub available_entries :
    Catalog → List ProviderSkillKey → List ProviderSkillIndexRecord → List AvailableSkillItem
available_entries c active [] = []
available_entries c active (r ∷ rs) =
    some_before (available_entry c active r) (available_entries c active rs)

-- The answer of `EnsureBody` in the loop: a skill that is gone is left out.
abbrev pub active_entry :
    SkillHandle → ProviderSkillIndexRecord → Result Bytes → Result (Option ActiveSkillItem)
active_entry h idx (ok body) = ok (
    some (record {
      name = h.name;
      body = (render_skill_body body idx.arguments []).text;
      resources = idx.resources;
    }))
active_entry h idx (err Error.skill_not_found) = ok none
active_entry h idx (err e) = err e

-- The last steps: one section alone, or both.
abbrev pub join_sections : Bytes → Bytes → Bytes
join_sections available active =
    if is_blank active && not (is_blank available)
    then available
    else if is_blank available && not (is_blank active)
    then active
    else wrap_skills_prompt (available ∷ active ∷ [])

module _ {Out : Type 0} (providers : ProviderResolver Out) where
  -- One round of the loop over the active keys.
  unfoldable pub active_round :
      (ℕ → Around)
      → List ProviderSkillKey
      → ProviderSkillKey
      → Catalog
      → Catalog × Result (Option ActiveSkillItem)
  active_round around filtered k c =
      if not (contains k filtered) then (c, ok none) else elim (handle_for_key c k) [
        | none ↦ (c, ok none)
        | some h ↦ elim (get_index c k) [
          | none ↦ (c, ok none)
          | some idx ↦
              let (c', body) = ensure_body providers around none k c in
              (c', active_entry h idx body)
        ]
      ]

  -- The loop, with what happens around each call of `EnsureBody`.
  unfoldable pub active_entries :
      (ℕ → ℕ → Around)
      → ℕ
      → List ProviderSkillKey
      → List ProviderSkillKey
      → Catalog
      → Catalog × Result (List ActiveSkillItem)
  active_entries around n filtered [] c = (c, ok [])
  active_entries around n filtered (k ∷ ks) c =
      let (c1, item) = active_round (around n) filtered k c in
      let (c2, items) = active_entries around (n + 1) filtered ks c1 in
      elim item [
        | err e ↦ (c1, err e)
        | ok i ↦ (c2, elim items [ err e ↦ err e | ok is ↦ ok (some_before i is) ])
      ]

  -- The sections, once the filter is checked, with the active keys of the session (`none` if no
  -- session is given).
  unfoldable pub prompt_sections :
      (ℕ → ℕ → Around)
      → SkillFilter
      → Option (List ProviderSkillKey)
      → Catalog
      → Catalog × Result Bytes
  prompt_sections around cfg none c =
      let records = list_prompt_index_records (to_catalog_prompt_filter cfg) c in
      let available = available_skills_prompt (available_entries c [] records) in
      if cfg.activity == skill_activity_active
      then (c, ok (join_sections [] (active_skills_prompt [])))
      else (c, ok (join_sections available []))
  prompt_sections around cfg (some keys) c =
      let records = list_prompt_index_records (to_catalog_prompt_filter cfg) c in
      let (c', items) = active_entries around 0 (record_keys records) keys c in
      if cfg.activity == skill_activity_inactive
      then (c, ok (join_sections (available_skills_prompt (available_entries c keys records)) []))
      else elim items [
        | err e ↦ (c', err e)
        | ok is ↦
            let active = active_skills_prompt is in
            let available = available_skills_prompt (available_entries c' keys records) in
            (
              c',
              ok (
                  join_sections (if cfg.activity == skill_activity_any then available else [])
                    active),
            )
      ]

  -- `SkillsPrompt`
  unfoldable pub skills_prompt :
      (ℕ → ℕ → Around)
      → ℕ
      → ℕ
      → (Session → Session)
      → (Store → Store)
      → Ctx
      → Option SkillFilter
      → Runtime
      → Runtime × Result Bytes
  skills_prompt around now later between meanwhile (some e) filter rt = (rt, err e)
  skills_prompt around now later between meanwhile none filter rt =
      let cfg = normalize_skills_prompt_filter filter in
      let active = cfg.activity == skill_activity_active in
      let (st1, found) = get now cfg.session_id rt.sessions in
      let (st2, keys) =
        keys_in_session providers later between meanwhile cfg.session_id rt.catalog st1 in
      let (c, out) = prompt_sections around cfg none rt.catalog in
      if not
        (cfg.activity == skill_activity_any || cfg.activity == skill_activity_inactive || active)
      then (rt, err Error.invalid_argument)
      else if active && cfg.session_id == []
      then (rt, err Error.invalid_argument)
      else if cfg.session_id == []
      then (record rt { catalog = c }, out)
      else elim found [
        | none ↦ (record rt { sessions = st1 }, err Error.session_not_found)
        | some id ↦ elim keys [
          | err e ↦ (record rt { sessions = st2 }, err e)
          | ok ks ↦
              let (c', out') = prompt_sections around cfg (some ks) rt.catalog in
              (record rt { catalog = c'; sessions = st2 }, out')
        ]
      ]
