-- ===== src/Runtime/Kept.antt =====
-- What each call of the runtime keeps of the catalog and of the store.
use agentskills_go.Base.{
  ℕ, ℤ, Bytes, bytes_eq, List, [], none, some, lookup, arith, inl, inr, Option-cases,
}
use agentskills_go.Artifact.Placeholders.{Declared}
use agentskills_go.Catalog.Body.{Around, ensure_body}
use agentskills_go.Catalog.Interface.{catalog_ops}
use agentskills_go.Catalog.Ops.{add, remove, resolve_def}
use agentskills_go.Catalog.State.{Catalog}
use agentskills_go.Runtime.Calls.{
  add_skill, remove_skill, close_session, render_skill, new_runtime_session, resolve_defs,
}
use agentskills_go.Runtime.State.{Runtime}
use agentskills_go.Session.Activate.{Interference}
use agentskills_go.Session.Kept.{Keeps, activate_keys-keeps}
use agentskills_go.Session.State.{Catalog as CatalogOps}
use agentskills_go.Spec.{
  load_mode_replace, Ctx, Result, Result-cases, ok, err, SkillDef, ProviderSkillKey,
  ProviderResolver, key_eq,
}
use agentskills_go.Store.Ops.{
  NewSessionParams, session_bound, register, touch, delete, prune_skill, new_session_in,
  activate_session,
}
use agentskills_go.Store.State.{Store}

module _ {C : Type 0} (cat : CatalogOps C) (P : C → Type 0) (others : ℕ → Interference C)
    (keeps : (n : ℕ) → Keeps P (others n)) (meanwhile : Store → Store)
    (ensure : (ctx : Ctx) (c : C) (k : ProviderSkillKey)
      → P c
      → P (cat.ensure_body ctx c k).0) where
  pub activate_session-keeps :
      (now : ℕ) (ctx : Ctx) (id : Bytes) (keys : List ProviderSkillKey) (mode : Bytes) (st : Store)
      (c : C)
      → P c
      → P (activate_session cat now others meanwhile ctx id keys mode (st, c)).0.1
  unfolding activate_session
  activate_session-keeps now (some e) id keys mode st c p = p
  activate_session-keeps now none id keys mode st c p =
      elim (Option-cases (lookup id (touch now id st).heap)) [
        | inl miss ↦ ground (arith, p)
        | inr (s, hit) ↦
            ground
              (arith, activate_keys-keeps cat P ensure others keeps (λ x. x) none keys mode s c p)
      ]

  pub new_session_in-keeps :
      (now later : ℕ) (uuid : Result Bytes) (ctx : Ctx) (p : NewSessionParams) (st : Store) (c : C)
      → P c
      → P (new_session_in cat now later uuid others meanwhile ctx p (st, c)).0.1
  unfolding new_session_in
  new_session_in-keeps now later uuid (some e) p st c v = v
  new_session_in-keeps now later (err e) none p st c v = v
  new_session_in-keeps now later (ok id) none p st c v =
      let st1 = register now id (session_bound st p) st in
      ground
        (arith, v, activate_session-keeps later none id p.active_keys load_mode_replace st1 c v)

module _ (sha256_hex : Bytes → Bytes) {Out : Type 0} (providers : ProviderResolver Out) where
  -- `P` stands for being linked, `Q` for being valid.
  module _ (P : Catalog → Type 0) (Q : Store → Type 0) (rt : Runtime) (p : P rt.catalog)
      (q : Q rt.sessions) where
    pub add_skill-keeps :
        (ctx : Ctx) (def : SkillDef)
        → P (add sha256_hex providers none def rt.catalog).0
        → P (add_skill sha256_hex providers ctx def rt).0.catalog
          × Q (add_skill sha256_hex providers ctx def rt).0.sessions
    unfolding add_skill
    add_skill-keeps (some e) def a = (p, q)
    add_skill-keeps none def a = (ground (arith, p, a), ground (arith, q))

    pub remove_skill-keeps :
        (ctx : Ctx) (def : SkillDef)
        → P (remove sha256_hex def rt.catalog).0
        → ((k : ProviderSkillKey) → Q (prune_skill k rt.sessions))
        → P (remove_skill sha256_hex providers ctx def rt).0.catalog
          × Q (remove_skill sha256_hex providers ctx def rt).0.sessions
    unfolding remove_skill
    remove_skill-keeps (some e) def a b = (p, q)
    remove_skill-keeps none def a b = elim (Option-cases (remove sha256_hex def rt.catalog).1) [
      | inl miss ↦ (ground (arith, p, a), ground (arith, q))
      | inr ((r, k), hit) ↦ (ground (arith, p, a), ground (arith, q, b k))
    ]

    pub close_session-keeps :
        (ctx : Ctx) (id : Bytes)
        → Q (delete id rt.sessions)
        → P (close_session ctx id rt).0.catalog × Q (close_session ctx id rt).0.sessions
    unfolding close_session
    close_session-keeps (some e) id a = (p, q)
    close_session-keeps none id a = (ground (arith, p), ground (arith, q, a))

    pub render_skill-keeps :
        (around : ℕ → Around) (ctx : Ctx) (def : SkillDef) (values : Declared)
        → ((k : ProviderSkillKey) → P (ensure_body providers around none k rt.catalog).0)
        → P (render_skill providers around ctx def values rt).0.catalog
          × Q (render_skill providers around ctx def values rt).0.sessions
    unfolding render_skill
    render_skill-keeps around (some e) def values a = (p, q)
    render_skill-keeps around none def values a = elim (Option-cases (resolve_def rt.catalog def)) [
      | inl miss ↦ (ground (arith, p), ground (arith, q))
      | inr (k, hit) ↦ (ground (arith, p, a k), ground (arith, q))
    ]

    pub new_runtime_session-keeps :
        (now later : ℕ) (uuid : Result Bytes) (others : ℕ → Interference Catalog)
        (meanwhile : Store → Store) (ctx : Ctx) (max_active : ℤ) (defs : List SkillDef)
        → ((par : NewSessionParams)
            → P
                (new_session_in
                  (catalog_ops providers)
                  now
                  later
                  uuid
                  others
                  meanwhile
                  none
                  par
                  (rt.sessions, rt.catalog)).0.1)
        → ((par : NewSessionParams)
            → Q
                (new_session_in
                  (catalog_ops providers)
                  now
                  later
                  uuid
                  others
                  meanwhile
                  none
                  par
                  (rt.sessions, rt.catalog)).0.0)
        → P
            (new_runtime_session providers now later uuid others meanwhile ctx max_active defs
              rt).0.catalog
          × Q
              (new_runtime_session providers now later uuid others meanwhile ctx max_active defs
                rt).0.sessions
    unfolding new_runtime_session
    new_runtime_session-keeps now later uuid others meanwhile (some e) max_active defs a b = (p, q)
    new_runtime_session-keeps now later uuid others meanwhile none max_active defs a b =
        elim (Result-cases (resolve_defs rt.catalog [] [] defs)) [
          | inl (keys, e) ↦
              let par : NewSessionParams = record {
                max_active_per_session = max_active;
                active_keys = keys;
              } in
              (rw (e, new_runtime_session) (a par), rw (e, new_runtime_session) (b par))
          | inr (x, e) ↦ (rw (e, new_runtime_session) p, rw (e, new_runtime_session) q)
        ]
