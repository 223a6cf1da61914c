-- ===== src/Runtime/ToolsSound.antt =====
-- The tools keep the catalog linked and the store valid.
use agentskills_go.Base.{
  ℕ, Bytes, bytes_eq, List, ◌≡◌, sym, subst, none, some, lookup, arith, inl, inr, Option-cases,
}
use agentskills_go.Catalog.Interface.{catalog_ops}
use agentskills_go.Catalog.State.{Catalog}
use agentskills_go.Runtime.Sound.{IsSound}
use agentskills_go.Runtime.State.{Runtime}
use agentskills_go.Runtime.ToolCalls.{
  new_session_registry, on_session, call_unload, call_read, call_run_script, call_load,
}
use agentskills_go.Session.Activate.{Interference}
use agentskills_go.Session.Consistent.{IsConsistent}
use agentskills_go.Session.Follows.{unload_all-Follows, unload_keys-Follows}
use agentskills_go.Session.State.{Session, Catalog as CatalogOps}
use agentskills_go.Session.Tools.{tool_unload, tool_read, tool_run_script, unload_all, unload_keys}
use agentskills_go.Spec.{
  Ctx, Result, ProviderSkillKey, ProviderResolver, LoadArgs, UnloadArgs, ReadResourceArgs,
  RunScriptArgs,
}
use agentskills_go.Store.Ops.{touch, activate_session}
use agentskills_go.Store.State.{Store}
use agentskills_go.Store.Valid.{IsValid, get-IsValid, touch-IsValid, put_session-IsValid}

module _ {C : Type 0} (cat : CatalogOps C) (c : C) (s : Session) where
  tool_unload-keeps :
      (P : Session → Type 0) (args : UnloadArgs)
      → P s
      → P (unload_all cat c s).0
      → ((rm : List ProviderSkillKey) → P (unload_keys cat rm c s).0)
      → P (tool_unload cat (λ x. x) none args c s).0
  unfolding tool_unload
  tool_unload-keeps P args p q r = grind (arith, p, q, r)

  tool_unload-IsConsistent :
      (args : UnloadArgs) → IsConsistent s → IsConsistent (tool_unload cat (λ x. x) none args c s).0
  tool_unload-IsConsistent args v =
      tool_unload-keeps IsConsistent args v (unload_all-Follows cat c v).valid
        (λ rm. (unload_keys-Follows cat c v rm).valid)

  module _ {Out : Type 0} (providers : ProviderResolver Out) where
    tool_read-session :
        (args : ReadResourceArgs) → (tool_read cat providers (λ x. x) none args c s).0 ≡ s
    unfolding tool_read
    tool_read-session args = ground arith

    tool_run_script-session :
        (args : RunScriptArgs) → (tool_run_script cat providers (λ x. x) none args c s).0 ≡ s
    unfolding tool_run_script
    tool_run_script-session args = ground arith

pub new_session_registry-IsSound :
    (now : ℕ) (ctx : Ctx) (id : Bytes) (rt : Runtime)
    → IsSound rt
    → IsSound (new_session_registry now ctx id rt).0
unfolding new_session_registry
new_session_registry-IsSound now (some e) id rt i = i
new_session_registry-IsSound now none id rt i = record {
  linked = i.linked;
  valid = get-IsValid now id rt.sessions i.valid;
}

-- A tool that keeps sessions consistent keeps the runtime sound.
on_session-IsSound :
    {A : Type 0} (now : ℕ) (meanwhile : Store → Store) (ctx : Ctx) (id : Bytes)
    (tool : Session → Session × Result A) (rt : Runtime)
    → ((st : Store) → IsValid st → IsValid (meanwhile st))
    → ((s : Session) → IsConsistent s → IsConsistent (tool s).0)
    → IsSound rt
    → IsSound (on_session now meanwhile ctx id tool rt).0
unfolding on_session
on_session-IsSound now meanwhile (some e) id tool rt keeps good i = i
on_session-IsSound now meanwhile none id tool rt keeps good i =
    let st = meanwhile (touch now id rt.sessions) in
    let v = keeps (touch now id rt.sessions) (touch-IsValid now id rt.sessions i.valid) in
    elim (Option-cases (lookup id st.heap)) [
      | inl miss ↦ rw (miss, on_session) (record { linked = i.linked; valid = v })
      | inr (s, hit) ↦
          rw (hit, on_session)
            (record {
              linked = i.linked;
              valid = put_session-IsValid id (tool s).0 st (good s (v.sound id s hit)) v;
            })
    ]

module _ {Out : Type 0} (providers : ProviderResolver Out) (now : ℕ) (meanwhile : Store → Store)
    (keeps : (st : Store) → IsValid st → IsValid (meanwhile st)) (ctx : Ctx) (id : Bytes)
    (rt : Runtime) (i : IsSound rt) where
  pub call_unload-IsSound :
      (args : UnloadArgs) → IsSound (call_unload providers now meanwhile ctx id args rt).0
  unfolding call_unload
  call_unload-IsSound args =
      let cat = catalog_ops providers in
      on_session-IsSound now meanwhile ctx id (tool_unload cat (λ x. x) none args rt.catalog) rt
        keeps (λ s. tool_unload-IsConsistent cat rt.catalog s args) i

  pub call_read-IsSound :
      (args : ReadResourceArgs) → IsSound (call_read providers now meanwhile ctx id args rt).0
  unfolding call_read
  call_read-IsSound args =
      let cat = catalog_ops providers in
      on_session-IsSound now meanwhile ctx id
        (tool_read cat providers (λ x. x) none args rt.catalog) rt keeps
        (λ s v. subst IsConsistent (sym (tool_read-session cat rt.catalog s providers args)) v) i

  pub call_run_script-IsSound :
      (args : RunScriptArgs) → IsSound (call_run_script providers now meanwhile ctx id args rt).0
  unfolding call_run_script
  call_run_script-IsSound args =
      let cat = catalog_ops providers in
      on_session-IsSound now meanwhile ctx id
        (tool_run_script cat providers (λ x. x) none args rt.catalog) rt keeps
        (λ s v.
          subst IsConsistent (sym (tool_run_script-session cat rt.catalog s providers args)) v)
        i

module _ {Out : Type 0} (providers : ProviderResolver Out) where
  -- `P` stands for being linked, `Q` for being valid.
  pub call_load-keeps :
      (P : Catalog → Type 0) (Q : Store → Type 0) (now later : ℕ)
      (others : ℕ → Interference Catalog) (before meanwhile : Store → Store) (ctx : Ctx)
      (id : Bytes) (args : LoadArgs) (rt : Runtime)
      → P rt.catalog
      → Q rt.sessions
      → Q (before (touch now id rt.sessions))
      → ((keys : List ProviderSkillKey)
          → P
              (activate_session
                (catalog_ops providers)
                later
                others
                meanwhile
                none
                id
                keys
                args.mode
                (before (touch now id rt.sessions), rt.catalog)).0.1)
      → ((keys : List ProviderSkillKey)
          → Q
              (activate_session
                (catalog_ops providers)
                later
                others
                meanwhile
                none
                id
                keys
                args.mode
                (before (touch now id rt.sessions), rt.catalog)).0.0)
      → P (call_load providers now later others before meanwhile ctx id args rt).0.catalog
        × Q (call_load providers now later others before meanwhile ctx id args rt).0.sessions
  unfolding call_load
  call_load-keeps P Q now later others before meanwhile (some e) id args rt p q b x y = (p, q)
  call_load-keeps P Q now later others before meanwhile none id args rt p q b x y =
      (grind (arith, p, x), grind (arith, b, y))
