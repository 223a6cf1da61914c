-- ===== src/Catalog/Changes.antt =====
-- What `Add` and `Remove` change, and that the maps by key and by definition stay linked.
use agentskills_go.Base.{
  Bytes, bytes_eq, false, none, some, is_some, ◌==◌, ==_refl, ◌≡◌, ◌∙◌, sym, ap, arith, inl, inr,
  Bool-cases, Option-cases, lookup, lookup-map_insert, lookup-map_delete, if◌then◌else◌,
}
use agentskills_go.Catalog.Entries.{
  renamed, renamed_fields, lookup-rename_entries, get_index-recompute, resolve_def-recompute,
}
use agentskills_go.Catalog.Names.{recompute_llm_names}
use agentskills_go.Catalog.Ops.{
  get_index, resolve_def, insert_entry, remove, add, new_entry, with_entry, without_entry,
}
use agentskills_go.Catalog.State.{Entry, Catalog, skill_record_from}
use agentskills_go.Spec.{
  Error, ok, err, Ctx, ProviderSkillKey, SkillDef, ProviderSkillIndexRecord, SkillRecord,
  ProviderResolver, key_eq, def_eq,
}

-- A definition maps to the key of the entry that was added under it, and each entry is found by its
-- definition.
pub record IsLinked (c : Catalog) : Type 0 where
  pub entry_of :
      (d : SkillDef) (k : ProviderSkillKey)
      → lookup d c.by_def ≡ some k
      → (e : Entry) × (lookup k c.by_key ≡ some e) × (e.def ≡ d)
  pub def_of :
      (k : ProviderSkillKey) (e : Entry)
      → lookup k c.by_key ≡ some e
      → (lookup e.def c.by_def ≡ some k) × (e.idx.key ≡ k)

get_index_none :
    (c : Catalog) (k : ProviderSkillKey)
    → is_some (lookup k c.by_key) ≡ false
    → get_index c k ≡ none
unfolding get_index
get_index_none c k h = ground arith

resolve_def_none :
    (c : Catalog) (d : SkillDef) → is_some (lookup d c.by_def) ≡ false → resolve_def c d ≡ none
unfolding resolve_def
resolve_def_none c d h = ground arith

resolve_def-some :
    (c : Catalog) (d : SkillDef) (k : ProviderSkillKey)
    → lookup d c.by_def ≡ some k
    → resolve_def c d ≡ some k
unfolding resolve_def
resolve_def-some c d k h = h

get_index-with_entry :
    (def : SkillDef) (idx : ProviderSkillIndexRecord) (c : Catalog) (j : ProviderSkillKey)
    → get_index (with_entry def idx c) j ≡ (if idx.key == j then some idx else get_index c j)
unfolding get_index
get_index-with_entry def idx c j =
    ground (arith, lookup-map_insert idx.key j (new_entry def idx) c.by_key)

resolve_def-with_entry :
    (def : SkillDef) (idx : ProviderSkillIndexRecord) (c : Catalog) (d : SkillDef)
    → resolve_def (with_entry def idx c) d ≡ (if def == d then some idx.key else resolve_def c d)
unfolding resolve_def
resolve_def-with_entry def idx c d = lookup-map_insert def d idx.key c.by_def

get_index-without_entry :
    (def : SkillDef) (key : ProviderSkillKey) (c : Catalog) (j : ProviderSkillKey)
    → get_index (without_entry def key c) j ≡ (if key == j then none else get_index c j)
unfolding get_index
get_index-without_entry def key c j = ground (arith, lookup-map_delete key j c.by_key)

resolve_def-without_entry :
    (def : SkillDef) (key : ProviderSkillKey) (c : Catalog) (d : SkillDef)
    → resolve_def (without_entry def key c) d ≡ (if def == d then none else resolve_def c d)
unfolding resolve_def
resolve_def-without_entry def key c d = lookup-map_delete def d c.by_def

with_entry-IsLinked :
    (def : SkillDef) (idx : ProviderSkillIndexRecord) (c : Catalog)
    → is_some (lookup idx.key c.by_key) ≡ false
    → is_some (lookup def c.by_def) ≡ false
    → IsLinked c
    → IsLinked (with_entry def idx c)
with_entry-IsLinked def idx c a b v = record {
  entry_of = λ d k h. elim (Bool-cases (def == d)) [
    | inl same ↦ (
      new_entry def idx,
      ground (
        arith,
        lookup-map_insert def d idx.key c.by_def,
        lookup-map_insert idx.key k (new_entry def idx) c.by_key,
        key_eq.beq_iff idx.key k,
      ),
      (def_eq.beq_iff def d).0 same,
    )
    | inr other ↦
        let (e, at, same) =
          v.entry_of d k (ground (arith, lookup-map_insert def d idx.key c.by_def)) in
        (
          e,
          ground (
            arith,
            lookup-map_insert idx.key k (new_entry def idx) c.by_key,
            key_eq.beq_iff idx.key k,
          ),
          same,
        )
  ];
  def_of = λ k e h. elim (Bool-cases (idx.key == k)) [
    | inl same ↦
        let e' : new_entry def idx ≡ e =
          ground (arith, lookup-map_insert idx.key k (new_entry def idx) c.by_key) in
        (
          ground (
            arith,
            lookup-map_insert def e.def idx.key c.by_def,
            key_eq.beq_iff idx.key k,
            ap (λ (x : Entry). x.def) e',
            ==_refl def,
          ),
          ap (λ (x : Entry). x.idx.key) (sym e') ∙ (key_eq.beq_iff idx.key k).0 same,
        )
    | inr other ↦
        let (by, own) =
          v.def_of k e (ground (arith, lookup-map_insert idx.key k (new_entry def idx) c.by_key)) in
        (
          ground (arith, lookup-map_insert def e.def idx.key c.by_def, def_eq.beq_iff def e.def),
          own,
        )
  ];
}

module _ (sha256_hex : Bytes → Bytes) where
  pub recompute-IsLinked : (c : Catalog) → IsLinked c → IsLinked (recompute_llm_names sha256_hex c)
  unfolding recompute_llm_names
  recompute-IsLinked c v = record {
    entry_of = λ d k h.
        let (e, at, same) = v.entry_of d k h in
        (
          renamed sha256_hex c.by_key e,
          ground (arith, lookup-rename_entries sha256_hex k c.by_key),
          (renamed_fields sha256_hex c.by_key e).0 ∙ same,
        );
    def_of = λ k x at. elim (Option-cases (lookup k c.by_key)) [
      | inl miss ↦ absurd (ground (arith, lookup-rename_entries sha256_hex k c.by_key))
      | inr (e, hit) ↦
          let x' : renamed sha256_hex c.by_key e ≡ x =
            ground (arith, lookup-rename_entries sha256_hex k c.by_key) in
          let (fd, fi, _, _, _) = renamed_fields sha256_hex c.by_key e in
          let (by, own) = v.def_of k e hit in
          let xd : x.def ≡ e.def = ap (λ (y : Entry). y.def) (sym x') ∙ fd in
          let xi : x.idx ≡ e.idx = ap (λ (y : Entry). y.idx) (sym x') ∙ fi in (rw xd by, rw xi own)
    ];
  }

  -- A successful `Add` registers the provider's record under its key and the key under the
  -- definition, both new; the index record under every other key, and the key under every other
  -- definition, are what they were (the names and handles of other skills may change).
  pub insert_entry-effect :
      (def : SkillDef) (idx : ProviderSkillIndexRecord) (c c' : Catalog) (rec : SkillRecord)
      → insert_entry sha256_hex def idx c ≡ (c', ok rec)
      → (rec ≡ skill_record_from def idx)
        × (get_index c idx.key ≡ none)
        × (resolve_def c def ≡ none)
        × ((j : ProviderSkillKey)
            → get_index c' j ≡ (if idx.key == j then some idx else get_index c j))
        × ((d : SkillDef) → resolve_def c' d ≡ (if def == d then some idx.key else resolve_def c d))
  unfolding insert_entry
  insert_entry-effect def idx c c' rec h =
      let new = with_entry def idx c in
      let c'_new : recompute_llm_names sha256_hex new ≡ c' = ground arith in
      (
        ground arith,
        get_index_none c idx.key (ground arith),
        resolve_def_none c def (ground arith),
        (λ j.
            ap (λ x. get_index x j) (sym c'_new)
            ∙ get_index-recompute sha256_hex new j
            ∙ get_index-with_entry def idx c j),
        (λ d.
            ap (λ x. resolve_def x d) (sym c'_new)
            ∙ resolve_def-recompute sha256_hex new d
            ∙ resolve_def-with_entry def idx c d),
      )

  -- A failed `Add` changes nothing.
  pub add_failed :
      {Out : Type 0} (providers : ProviderResolver Out) (ctx : Ctx) (def : SkillDef)
      (c c' : Catalog) (e : Error)
      → add sha256_hex providers ctx def c ≡ (c', err e)
      → c' ≡ c
  unfolding add insert_entry
  add_failed providers (some x) def c c' e h = ground arith
  add_failed providers none def c c' e h = ground arith

  pub insert_entry-IsLinked :
      (def : SkillDef) (idx : ProviderSkillIndexRecord) (c : Catalog)
      → IsLinked c
      → IsLinked (insert_entry sha256_hex def idx c).0
  unfolding insert_entry
  insert_entry-IsLinked def idx c v = ground (
    arith,
    v,
    λ (a : is_some (lookup idx.key c.by_key) ≡ false) (b : is_some (lookup def c.by_def) ≡ false).
        recompute-IsLinked (with_entry def idx c) (with_entry-IsLinked def idx c a b v),
  )

  -- On a linked catalog a successful `Remove` takes out the key and the definition, and nothing
  -- else.
  pub remove-effect :
      (def : SkillDef) (c c' : Catalog) (rec : SkillRecord) (key : ProviderSkillKey)
      → IsLinked c
      → remove sha256_hex def c ≡ (c', some (rec, key))
      → (resolve_def c def ≡ some key)
        × ((j : ProviderSkillKey) → get_index c' j ≡ (if key == j then none else get_index c j))
        × ((d : SkillDef) → resolve_def c' d ≡ (if def == d then none else resolve_def c d))
  unfolding remove
  remove-effect def c c' rec key v h = elim (Option-cases (lookup def c.by_def)) [
    | inl miss ↦ absurd (ground arith)
    | inr (canon, found) ↦
        let (e, at, same) = v.entry_of def canon found in
        let old = without_entry def key c in
        let key_canon : canon ≡ key = ground arith in
        let c'_old : recompute_llm_names sha256_hex old ≡ c' = ground arith in
        (
          resolve_def-some c def key (ground arith),
          (λ j.
              ap (λ x. get_index x j) (sym c'_old)
              ∙ get_index-recompute sha256_hex old j
              ∙ get_index-without_entry def key c j),
          (λ d.
              ap (λ x. resolve_def x d) (sym c'_old)
              ∙ resolve_def-recompute sha256_hex old d
              ∙ resolve_def-without_entry def key c d),
        )
  ]
