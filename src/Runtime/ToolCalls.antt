-- ===== src/Runtime/ToolCalls.antt =====
-- `NewSessionRegistry`, and the tools of a registry as calls on the store that holds the session.
use agentskills_go.Base.{ℕ, Bytes, bytes_eq, List, [], none, some, lookup, if◌then◌else◌}
use agentskills_go.Catalog.Interface.{catalog_ops}
use agentskills_go.Catalog.State.{Catalog}
use agentskills_go.Runtime.State.{Runtime}
use agentskills_go.Session.Activate.{Interference, load_mode}
use agentskills_go.Session.State.{Session, is_empty}
use agentskills_go.Session.Tools.{tool_unload, tool_read, tool_run_script, resolve_keys}
use agentskills_go.Spec.{
  Ctx, Error, Result, ok, err, SkillHandle, ProviderResolver, LoadArgs, UnloadArgs,
  ReadResourceArgs, RunScriptArgs, RunScriptOut,
}
use agentskills_go.Store.Ops.{get, touch, put_session, activate_session}
use agentskills_go.Store.State.{Store}

-- `NewSessionRegistry`: the id stands for the session object of the new registry.
unfoldable pub new_session_registry : ℕ → Ctx → Bytes → Runtime → Runtime × Result Bytes
new_session_registry now (some e) id rt = (rt, err e)
new_session_registry now none id rt =
    let (st, found) = get now id rt.sessions in
    (record rt { sessions = st }, elim found [ none ↦ err Error.session_not_found | some i ↦ ok i ])

-- A tool on the session object of this id: it touches the session, and then does its own part.
-- `meanwhile` is what the other goroutines make of the store between the two.
unfoldable pub on_session :
    {A : Type 0}
    → ℕ
    → (Store → Store)
    → Ctx
    → Bytes
    → (Session → Session × Result A)
    → Runtime
    → Runtime × Result A
on_session now meanwhile (some e) id tool rt = (rt, err e)
on_session now meanwhile none id tool rt =
    let st = meanwhile (touch now id rt.sessions) in
    elim (lookup id st.heap) [
      | none ↦ (record rt { sessions = st }, err Error.session_not_found)
      | some s ↦ let (s', r) = tool s in (record rt { sessions = put_session id s' st }, r)
    ]

module _ {Out : Type 0} (providers : ProviderResolver Out) where
  -- `toolUnload`
  unfoldable pub call_unload :
      ℕ → (Store → Store) → Ctx → Bytes → UnloadArgs → Runtime → Runtime × Result (List SkillHandle)
  call_unload now meanwhile ctx id args rt =
      on_session now meanwhile ctx id
        (tool_unload (catalog_ops providers) (λ x. x) none args rt.catalog) rt

  -- `toolRead`
  unfoldable pub call_read :
      ℕ → (Store → Store) → Ctx → Bytes → ReadResourceArgs → Runtime → Runtime × Result Out
  call_read now meanwhile ctx id args rt =
      on_session now meanwhile ctx id
        (tool_read (catalog_ops providers) providers (λ x. x) none args rt.catalog) rt

  -- `toolRunScript`
  unfoldable pub call_run_script :
      ℕ → (Store → Store) → Ctx → Bytes → RunScriptArgs → Runtime → Runtime × Result RunScriptOut
  call_run_script now meanwhile ctx id args rt =
      on_session now meanwhile ctx id
        (tool_run_script (catalog_ops providers) providers (λ x. x) none args rt.catalog) rt

  -- `toolLoad`: its touch, its checks, and `ActivateKeys`, which touches again and reads the clock
  -- `later`; the other goroutines change the store after the first touch and during the rest.
  unfoldable pub call_load :
      ℕ
      → ℕ
      → (ℕ → Interference Catalog)
      → (Store → Store)
      → (Store → Store)
      → Ctx
      → Bytes
      → LoadArgs
      → Runtime
      → Runtime × Result (List SkillHandle)
  call_load now later others before meanwhile (some e) id args rt = (rt, err e)
  call_load now later others before meanwhile none id args rt =
      let cat = catalog_ops providers in
      let st = before (touch now id rt.sessions) in
      let touched = record rt { sessions = st } in
      elim (lookup id st.heap) [
        | none ↦ (touched, err Error.session_not_found)
        | some s ↦
            if s.closed
            then (touched, err Error.session_not_found)
            else elim (load_mode args.mode) [
              | none ↦ (touched, err Error.invalid_argument)
              | some replace ↦
                  if is_empty args.skills
                  then (touched, err Error.invalid_argument)
                  else elim (resolve_keys cat rt.catalog [] args.skills) [
                    | err e ↦ (touched, err e)
                    | ok keys ↦
                        let ((st', c), r) =
                          activate_session cat later others meanwhile none id keys args.mode
                            (st, rt.catalog) in
                        (record rt { catalog = c; sessions = st' }, r)
                  ]
            ]
      ]
