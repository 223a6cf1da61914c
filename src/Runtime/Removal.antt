-- ===== src/Runtime/Removal.antt =====
-- A skill that the host removes, and a session that it closes, are gone everywhere.
use agentskills_go.Base.{
  ℕ, Bytes, bytes_eq, false, not, [], none, some, ◌≡◌, ◌∙◌, sym, ap, arith, inl, inr, Option-cases,
  contains, contains-keep, lookup, ◌==◌, ==_refl,
}
use agentskills_go.Catalog.Changes.{IsLinked, remove-effect}
use agentskills_go.Catalog.Ops.{remove, resolve_def, get_index}
use agentskills_go.Runtime.Calls.{remove_skill, close_session}
use agentskills_go.Runtime.State.{Runtime}
use agentskills_go.Session.State.{Session, is_active}
use agentskills_go.Spec.{
  ok, ProviderSkillKey, SkillDef, SkillRecord, ProviderResolver, key_eq, def_eq,
}
use agentskills_go.Store.Evict.{evict_expired_inv}
use agentskills_go.Store.Ops.{get, use_session, delete, prune_skill}
use agentskills_go.Store.Pruning.{prune_skill-inactive}
use agentskills_go.Store.State.{Store, delete_elem}
use agentskills_go.Store.Valid.{IsValid}

module _ (sha256_hex : Bytes → Bytes) {Out : Type 0} (providers : ProviderResolver Out) where
  -- What a successful `RemoveSkill` has done.
  remove_skill-ok :
      (def : SkillDef) (rt rt' : Runtime) (rec : SkillRecord)
      → remove_skill sha256_hex providers none def rt ≡ (rt', ok rec)
      → (key : ProviderSkillKey) × (remove sha256_hex def rt.catalog
          ≡ (rt'.catalog, some (rec, key)))
        × (rt'.sessions ≡ prune_skill key rt.sessions)
  unfolding remove_skill
  remove_skill-ok def rt rt' rec h = elim (Option-cases (remove sha256_hex def rt.catalog).1) [
    | inl miss ↦ absurd (ground arith)
    | inr ((r, key), found) ↦ (key, ground arith, ground arith)
  ]

  -- After a successful `RemoveSkill` on a linked catalog and a valid store, the definition resolves to
  -- nothing, the key that it had is not indexed, and no open session has that key active: neither in
  -- its active order nor in its active set, which the tools consult.
  pub remove_skill-gone :
      (def : SkillDef) (rt rt' : Runtime) (rec : SkillRecord) (id : Bytes) (s : Session)
      → IsLinked rt.catalog
      → IsValid rt.sessions
      → remove_skill sha256_hex providers none def rt ≡ (rt', ok rec)
      → lookup id rt'.sessions.heap ≡ some s
      → s.closed ≡ false
      → (key : ProviderSkillKey) × (resolve_def rt.catalog def ≡ some key)
        × (resolve_def rt'.catalog def ≡ none)
        × (get_index rt'.catalog key ≡ none)
        × (contains key s.active_order ≡ false)
        × (is_active s key ≡ false)
  remove_skill-gone def rt rt' rec id s l v h at open_ =
      let (key, gone, pruned) = remove_skill-ok def rt rt' rec h in
      let (had, by_key, by_def) =
        remove-effect sha256_hex def rt.catalog rt'.catalog rec key l gone in
      let (unlisted, unset) =
        prune_skill-inactive key rt.sessions id s v
          (ap (λ (st : Store). lookup id st.heap) (sym pruned) ∙ at) open_ in
      (
        key,
        had,
        ground (arith, by_def def, ==_refl def),
        ground (arith, by_key key, ==_refl key),
        unlisted,
        unset,
      )

delete_elem-absent :
    (id j : Bytes) (st : Store)
    → contains id st.m ≡ false
    → contains id (delete_elem j st).m ≡ false
unfolding delete_elem
delete_elem-absent id j st h = ground (arith, contains-keep (λ x. not (x == j)) id st.m)

delete-absent : (id : Bytes) (st : Store) → contains id (delete id st).m ≡ false
unfolding delete delete_elem
delete-absent id st = ground (arith, contains-keep (λ x. not (x == id)) id st.m, ==_refl id)

get-absent :
    (now : ℕ) (id : Bytes) (st : Store) → contains id st.m ≡ false → (get now id st).1 ≡ none
unfolding get use_session
get-absent now id st h =
    let gone = evict_expired_inv (λ x. contains id x.m ≡ false) (delete_elem-absent id) now st h in
    ground arith

-- A session that the host has closed, by an id that is not empty, is not found again, at any time.
pub close_session-get :
    (now : ℕ) (id : Bytes) (rt : Runtime)
    → (id == []) ≡ false
    → (get now id (close_session none id rt).0.sessions).1 ≡ none
unfolding close_session
close_session-get now id rt h =
    ground (arith, get-absent now id (delete id rt.sessions) (delete-absent id rt.sessions))
