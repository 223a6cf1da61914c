-- ===== src/Catalog/Entries.antt =====
-- Renaming changes nothing but the names, and which entries the map holds.
use agentskills_go.Base.{
  ◌≤◌, Bytes, bytes_eq, nat_eq, true, [], ◌∷◌, Option, none, some, ◌≡◌, ◌≢◌, ◌∙◌, refl, ap, arith,
  ◌⊎◌, inl, inr, Option-cases, lookup, keys,
}
use agentskills_go.Catalog.Names.{
  ByKey, in_group, group_size, map_entries, first_pass, second_pass, rename_entries, hashed_name,
  recompute_llm_names,
}
use agentskills_go.Catalog.Ops.{get_index, resolve_def}
use agentskills_go.Catalog.State.{Entry, Catalog}
use agentskills_go.Spec.{ProviderSkillKey, SkillDef, key_eq, def_eq}

abbrev pub opt_map {ℓ κ} : {A : Type ℓ} {B : Type κ} → (A → B) → Option A → Option B
opt_map f none = none
opt_map f (some a) = some (f a)

pub lookup-map_entries :
    (f : Entry → Entry) (k : ProviderSkillKey) (m : ByKey)
    → lookup k (map_entries f m) ≡ opt_map f (lookup k m)
lookup-map_entries f k [] = refl
lookup-map_entries f k ((j, e) ∷ m) = ground (arith, lookup-map_entries f k m)

pub keys-map_entries : (f : Entry → Entry) (m : ByKey) → keys (map_entries f m) ≡ keys m
keys-map_entries f [] = refl
keys-map_entries f ((j, e) ∷ m) = ap (◌∷◌ j) (keys-map_entries f m)

module _ (sha256_hex : Bytes → Bytes) where
  -- what the two passes make of an entry
  pub renamed : ByKey → Entry → Entry
  renamed m e =
      second_pass sha256_hex (map_entries (first_pass sha256_hex m) m) (first_pass sha256_hex m e)

  pub lookup-rename_entries :
      (k : ProviderSkillKey) (m : ByKey)
      → lookup k (rename_entries sha256_hex m) ≡ opt_map (renamed m) (lookup k m)
  unfolding rename_entries renamed
  lookup-rename_entries k m =
      let f = first_pass sha256_hex m in
      let g = second_pass sha256_hex (map_entries f m) in
      lookup-map_entries g k (map_entries f m)
      ∙ ap (opt_map g) (lookup-map_entries f k m)
      ∙ twice f g (lookup k m)
    where
      twice :
          (f g : Entry → Entry) (o : Option Entry)
          → opt_map g (opt_map f o) ≡ opt_map (λ e. g (f e)) o
      twice f g none = refl
      twice f g (some e) = refl

  pub keys-rename_entries : (m : ByKey) → keys (rename_entries sha256_hex m) ≡ keys m
  unfolding rename_entries
  keys-rename_entries m = keys-map_entries _ _ ∙ keys-map_entries _ m

  pub renamed_fields :
      (m : ByKey) (e : Entry)
      → ((renamed m e).def ≡ e.def)
        × ((renamed m e).idx ≡ e.idx)
        × ((renamed m e).body_loaded ≡ e.body_loaded)
        × ((renamed m e).body_wait ≡ e.body_wait)
        × ((renamed m e).body_err ≡ e.body_err)
  unfolding renamed first_pass second_pass
  renamed_fields m e = (ground arith, ground arith, ground arith, ground arith, ground arith)

  -- The name of an entry is its own, if no other has that name and location, or it is hashed.
  pub renamed_name :
      (m : ByKey) (e : Entry)
      → (((renamed m e).llm_name ≡ e.idx.key.name)
          × (group_size e.idx.key.name e.def.location m ≡ 1))
        ⊎ ((renamed m e).llm_name ≡ hashed_name sha256_hex e)
  unfolding renamed first_pass second_pass hashed_name
  renamed_name m e = ground arith

  -- Renaming leaves what the lookups by key and by definition return.
  pub get_index-recompute :
      (c : Catalog) (k : ProviderSkillKey)
      → get_index (recompute_llm_names sha256_hex c) k ≡ get_index c k
  unfolding get_index recompute_llm_names
  get_index-recompute c k = elim (Option-cases (lookup k c.by_key)) [
    | inl miss ↦ ground (arith, lookup-rename_entries k c.by_key)
    | inr (e, hit) ↦ ground (arith, lookup-rename_entries k c.by_key, renamed_fields c.by_key e)
  ]

  pub resolve_def-recompute :
      (c : Catalog) (d : SkillDef)
      → resolve_def (recompute_llm_names sha256_hex c) d ≡ resolve_def c d
  unfolding resolve_def recompute_llm_names
  resolve_def-recompute c d = refl

-- Two entries of one name and location make a group of two at least.
pub group_size-two :
    (name location : Bytes) (m : ByKey) (j k : ProviderSkillKey) (d e : Entry)
    → lookup j m ≡ some d
    → lookup k m ≡ some e
    → j ≢ k
    → in_group name location d ≡ true
    → in_group name location e ≡ true
    → 2 ≤ group_size name location m
group_size-two name location [] j k d e hd he ne gd ge = absurd (ground arith)
group_size-two name location ((i, x) ∷ m) j k d e hd he ne gd ge = ground (
  arith,
  group_size-two name location m j k d e,
  one name location m j d,
  one name location m k e,
  key_eq.beq_iff i j,
  key_eq.beq_iff i k,
)
  where
    one :
        (name location : Bytes) (m : ByKey) (j : ProviderSkillKey) (d : Entry)
        → lookup j m ≡ some d
        → in_group name location d ≡ true
        → 1 ≤ group_size name location m
    one name location [] j d h g = absurd (ground arith)
    one name location ((i, x) ∷ m) j d h g = ground (arith, one name location m j d)
