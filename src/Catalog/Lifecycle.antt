-- ===== src/Catalog/Lifecycle.antt =====
-- `Add` and `Remove` keep the maps linked, and `Remove` undoes `Add`.
use mathlib.Core.Path.{subst}
use agentskills_go.Base.{
  Bytes, none, some, ==_refl, ◌≡◌, ◌∙◌, sym, ap, arith, inl, inr, Option-cases, lookup,
  lookup-map_delete,
}
use agentskills_go.Catalog.Changes.{
  IsLinked, recompute-IsLinked, insert_entry-IsLinked, insert_entry-effect, remove-effect,
}
use agentskills_go.Catalog.Ops.{get_index, resolve_def, insert_entry, remove, add, without_entry}
use agentskills_go.Catalog.State.{new_catalog, Catalog, skill_record_from}
use agentskills_go.Spec.{
  Result, ok, Ctx, ProviderSkillKey, SkillDef, ProviderSkillIndexRecord, SkillRecord,
  ProviderResolver, key_eq, def_eq,
}

without_entry-IsLinked :
    (def : SkillDef) (canon : ProviderSkillKey) (c : Catalog)
    → lookup def c.by_def ≡ some canon
    → IsLinked c
    → IsLinked (without_entry def canon c)
without_entry-IsLinked def canon c found v =
    let (e0, at0, same0) = v.entry_of def canon found in
    record {
      entry_of = λ d k h.
          let (e, at, same) = v.entry_of d k (ground (arith, lookup-map_delete def d c.by_def)) in
          (
            e,
            ground (
              arith,
              lookup-map_delete canon k c.by_key,
              lookup-map_delete def d c.by_def,
              key_eq.beq_iff canon k,
              def_eq.beq_iff def d,
            ),
            same,
          );
      def_of = λ k e h.
          let (by, own) = v.def_of k e (ground (arith, lookup-map_delete canon k c.by_key)) in
          (
            ground (
              arith,
              lookup-map_delete canon k c.by_key,
              lookup-map_delete def e.def c.by_def,
              key_eq.beq_iff canon k,
              def_eq.beq_iff def e.def,
            ),
            own,
          );
    }

pub new_catalog-IsLinked : IsLinked new_catalog
unfolding new_catalog
new_catalog-IsLinked = record {
  entry_of = λ d k h. absurd (ground arith);
  def_of = λ k e h. absurd (ground arith);
}

module _ (sha256_hex : Bytes → Bytes) where
  -- Every outcome of `Add` keeps the catalog linked.
  pub add-IsLinked :
      {Out : Type 0} (providers : ProviderResolver Out) (ctx : Ctx) (def : SkillDef) (c : Catalog)
      → IsLinked c
      → IsLinked (add sha256_hex providers ctx def c).0
  unfolding add
  add-IsLinked providers (some x) def c v = v
  add-IsLinked providers none def c v = grind (arith, v, insert_entry-IsLinked)

  -- Every outcome of `Remove` keeps the catalog linked.
  pub remove-IsLinked :
      (def : SkillDef) (c : Catalog) → IsLinked c → IsLinked (remove sha256_hex def c).0
  unfolding remove
  remove-IsLinked def c v = elim (Option-cases (lookup def c.by_def)) [
    | inl miss ↦ ground (arith, v)
    | inr (canon, found) ↦
        let (e, at, same) = v.entry_of def canon found in
        let w =
          recompute-IsLinked sha256_hex (without_entry def canon c)
            (without_entry-IsLinked def canon c found v) in
        ground (arith, w)
  ]

  remove-result :
      (def : SkillDef) (idx : ProviderSkillIndexRecord) (k : ProviderSkillKey) (c : Catalog)
      → IsLinked c
      → resolve_def c def ≡ some k
      → get_index c k ≡ some idx
      → (remove sha256_hex def c).1 ≡ some (skill_record_from def idx, k)
  unfolding remove resolve_def get_index
  remove-result def idx k c v found indexed =
      let (e, at, same) = v.entry_of def k found in
      let idx_e : e.idx ≡ idx = ground arith in
      ground (
        arith,
        ap (λ (x : ProviderSkillIndexRecord × SkillDef). skill_record_from x.1 x.0)
            (pair_eq idx_e same),
      )
    where
      pair_eq :
          {a b : ProviderSkillIndexRecord} {x y : SkillDef}
          → a ≡ b
          → x ≡ y
          → ◌≡◌ {A = ProviderSkillIndexRecord × SkillDef} (a, x) (b, y)
      pair_eq p q = cc

  -- On a linked catalog, `Remove` of a definition that `Add` has just registered returns the
  -- record and the key of the addition, and every lookup by key and by definition is again as it
  -- was before.
  pub remove-insert_entry :
      (def : SkillDef) (idx : ProviderSkillIndexRecord) (c c' : Catalog) (rec : SkillRecord)
      → IsLinked c
      → insert_entry sha256_hex def idx c ≡ (c', ok rec)
      → ((remove sha256_hex def c').1 ≡ some (rec, idx.key))
        × ((j : ProviderSkillKey) → get_index (remove sha256_hex def c').0 j ≡ get_index c j)
        × ((d : SkillDef) → resolve_def (remove sha256_hex def c').0 d ≡ resolve_def c d)
  remove-insert_entry def idx c c' rec v h =
      let (r, fresh_key, fresh_def, by_key, by_def) =
        insert_entry-effect sha256_hex def idx c c' rec h in
      let v' : IsLinked c' =
        subst IsLinked (ap (λ (x : Catalog × Result SkillRecord). x.0) h)
          (insert_entry-IsLinked sha256_hex def idx c v) in
      let here : resolve_def c' def ≡ some idx.key = by_def def ∙ ground (arith, ==_refl def) in
      let indexed : get_index c' idx.key ≡ some idx =
        by_key idx.key ∙ ground (arith, ==_refl idx.key) in
      let out : (remove sha256_hex def c').1 ≡ some (rec, idx.key) =
        remove-result def idx idx.key c' v' here indexed ∙ cc (sym r) in
      let (a, b, d) =
        remove-effect sha256_hex def c' (remove sha256_hex def c').0 rec idx.key v'
          (ground (arith, out)) in
      (
        out,
        (λ j. ground (arith, b j, by_key j, fresh_key, key_eq.beq_iff idx.key j)),
        (λ j. ground (arith, d j, by_def j, fresh_def, def_eq.beq_iff def j)),
      )
