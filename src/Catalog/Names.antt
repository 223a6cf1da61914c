-- ===== src/Catalog/Names.antt =====
-- `recomputeLLMNamesLocked`: the names that a language model sees, and the handle index.
use agentskills_go.Base.{
  ℕ, suc, Bytes, bytes_eq, nat_eq, Bool, ◌&&◌, List, [], ◌∷◌, ◌++◌, ◌==◌, map_insert, ltb, take,
  if◌then◌else◌,
}
use agentskills_go.Catalog.State.{Entry, Catalog}
use agentskills_go.Spec.{ProviderSkillKey, SkillDef, SkillHandle, handle_eq}

abbrev pub ByKey : Type 0
ByKey = List (ProviderSkillKey × Entry)

-- whether an entry has this name and location, as the key of its group
abbrev pub in_group : Bytes → Bytes → Entry → Bool
in_group name location e = e.idx.key.name == name && e.def.location == location

abbrev pub group_size : Bytes → Bytes → ByKey → ℕ
group_size name location [] = 0
group_size name location ((k, e) ∷ m) =
    if in_group name location e
    then suc (group_size name location m)
    else group_size name location m

-- `e.llmName + "\x00" + e.def.Location`
abbrev pub label : Entry → Bytes
label e = e.llm_name ++ (0 ∷ e.def.location)

abbrev pub label_count : Bytes → ByKey → ℕ
label_count l [] = 0
label_count l ((k, e) ∷ m) = if label e == l then suc (label_count l m) else label_count l m

abbrev pub map_entries : (Entry → Entry) → ByKey → ByKey
map_entries f [] = []
map_entries f ((k, e) ∷ m) = (k, f e) ∷ map_entries f m

-- The handle index of the map: a later pair of Go's iteration is an earlier one here.
unfoldable pub index_handles : ByKey → List (SkillHandle × ProviderSkillKey)
index_handles [] = []
index_handles ((k, e) ∷ m) =
    map_insert (record { name = e.llm_name; location = e.def.location }) e.idx.key (index_handles m)

-- SHA-256 with its digest in hexadecimal is an argument.
module _ (sha256_hex : Bytes → Bytes) where
  unfoldable pub short_hash_def : SkillDef → Bytes
  short_hash_def d = take 8 (sha256_hex (d.type ++ (0 ∷ (d.name ++ (0 ∷ d.location)))))

  -- `fmt.Sprintf("%s#%s", e.idx.Key.Name, shortHashDef(e.def))`
  unfoldable pub hashed_name : Entry → Bytes
  hashed_name e = e.idx.key.name ++ (b'#' ∷ short_hash_def e.def)

  -- The first pass, for one entry of the map `m`.
  unfoldable pub first_pass : ByKey → Entry → Entry
  first_pass m e =
      if group_size e.idx.key.name e.def.location m == 1
      then (record e { llm_name = e.idx.key.name })
      else (record e { llm_name = hashed_name e })

  -- The second pass, for one entry; the counts are those before the pass.
  unfoldable pub second_pass : ByKey → Entry → Entry
  second_pass m e =
      if ltb 1 (label_count (label e) m) then (record e { llm_name = hashed_name e }) else e

  unfoldable pub rename_entries : ByKey → ByKey
  rename_entries m =
      let named = map_entries (first_pass m) m in map_entries (second_pass named) named

  unfoldable pub recompute_llm_names : Catalog → Catalog
  recompute_llm_names c =
      let m = rename_entries c.by_key in record c { by_key = m; handle_index = index_handles m }
