-- ===== src/Catalog/Interface.antt =====
-- The catalog as the `Catalog` interface that sessions use, and that it keeps what they rely on.
use agentskills_go.Base.{
  ℕ, zero, suc, Bytes, none, some, is_some, ◌≡◌, ◌∙◌, refl, arith, inl, inr, Option-cases, lookup,
  map_update, lookup-map_update,
}
use agentskills_go.Catalog.Body.{publish, finish_body_load, load_as, ensure_rounds, ensure_body}
use agentskills_go.Catalog.Cache.{alone}
use agentskills_go.Catalog.Ops.{get_index, resolve_handle, handle_for_key}
use agentskills_go.Catalog.State.{Entry, Catalog}
use agentskills_go.Session.State.{Catalog as CatalogOps}
use agentskills_go.Session.Success.{CatalogLaws}
use agentskills_go.Spec.{Result, ok, err, Ctx, ProviderSkillKey, ProviderResolver, key_eq}

module _ {Out : Type 0} (providers : ProviderResolver Out) where
  abbrev pub catalog_ops : CatalogOps Catalog
  catalog_ops = record {
    resolve_handle = resolve_handle;
    handle_for_key = handle_for_key;
    ensure_body = λ ctx c k. ensure_body providers alone ctx k c;
    get_index = get_index;
  }

  update_handle :
      (f : Entry → Entry) (k j : ProviderSkillKey) (c : Catalog) (n : ℕ)
      → ((e : Entry) → ((f e).llm_name ≡ e.llm_name) × ((f e).def ≡ e.def))
      → handle_for_key (record c { by_key = map_update k f c.by_key; next_chan = n }) j
        ≡ handle_for_key c j
  unfolding handle_for_key
  update_handle f k j c n same = elim (Option-cases (lookup j c.by_key)) [
    | inl miss ↦ ground (arith, lookup-map_update k j f c.by_key)
    | inr (e, hit) ↦ ground (arith, lookup-map_update k j f c.by_key, same e)
  ]

  publish_same :
      (ch : ℕ) (r : Result Bytes) (e : Entry)
      → ((publish ch r e).llm_name ≡ e.llm_name) × ((publish ch r e).def ≡ e.def)
  unfolding publish
  publish_same ch (ok b) e = (refl, refl)
  publish_same ch (err x) e = (ground arith, ground arith)

  finish_handle :
      (k j : ProviderSkillKey) (ch : ℕ) (r : Result Bytes) (c : Catalog)
      → handle_for_key (finish_body_load k ch r c) j ≡ handle_for_key c j
  unfolding finish_body_load
  finish_handle k j ch r c =
      ground (arith, update_handle (publish ch r) k j c c.next_chan (publish_same ch r))

  load_as-handle :
      (e : Entry) (k j : ProviderSkillKey) (c : Catalog)
      → handle_for_key (load_as providers e k (λ x. x) c).0 j ≡ handle_for_key c j
  unfolding load_as
  load_as-handle e k j c =
      finish_handle k j _ _ _
      ∙ update_handle (λ x. record x { body_wait = some c.next_chan }) k j c _ (λ x. (refl, refl))

  ensure_rounds-handle :
      (n : ℕ) (k j : ProviderSkillKey) (c : Catalog)
      → handle_for_key (ensure_rounds providers n alone k c).0 j ≡ handle_for_key c j
  unfolding ensure_rounds
  ensure_rounds-handle zero k j c = refl
  ensure_rounds-handle (suc n) k j c = elim (Option-cases (lookup k c.by_key)) [
    | inl miss ↦ ground arith
    | inr (e, hit) ↦ ground (arith, load_as-handle e k j c, ensure_rounds-handle n k j c)
  ]

  handle_known :
      (c : Catalog) (k : ProviderSkillKey) → is_some (handle_for_key c k) ≡ is_some (get_index c k)
  unfolding handle_for_key get_index
  handle_known c k = ground arith

  ensure_body-handle :
      (ctx : Ctx) (c : Catalog) (k j : ProviderSkillKey)
      → handle_for_key (ensure_body providers alone ctx k c).0 j ≡ handle_for_key c j
  unfolding ensure_body
  ensure_body-handle (some x) c k j = refl
  ensure_body-handle none c k j = ensure_rounds-handle 5 k j c

  -- A skill of the catalog has a handle exactly if it is indexed, and `EnsureBody`, where nothing
  -- else runs, changes no handle.
  pub catalog_ops-CatalogLaws : CatalogLaws catalog_ops
  catalog_ops-CatalogLaws = record {
    handle_known = handle_known;
    ensure_handle = ensure_body-handle;
  }
