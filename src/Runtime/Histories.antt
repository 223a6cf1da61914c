-- ===== src/Runtime/Histories.antt =====
-- The invariant of the runtime over all histories of calls.
use agentskills_go.Base.{ℕ, ℤ, Bytes, bytes_eq, List, Option, none, ◌≡◌}
use agentskills_go.Artifact.Placeholders.{Declared}
use agentskills_go.Catalog.Body.{Around}
use agentskills_go.Catalog.Cache.{alone}
use agentskills_go.Catalog.Changes.{IsLinked}
use agentskills_go.Catalog.Interface.{catalog_ops}
use agentskills_go.Catalog.Lifecycle.{new_catalog-IsLinked, add-IsLinked, remove-IsLinked}
use agentskills_go.Catalog.Loading.{KeepsLinked, ensure_body-IsLinked}
use agentskills_go.Catalog.State.{Catalog, new_catalog}
use agentskills_go.Runtime.Calls.{
  add_skill, remove_skill, close_session, list_skills, render_skill, new_runtime_session,
}
use agentskills_go.Runtime.Filters.{SkillListFilter}
use agentskills_go.Runtime.Prompt.{SkillFilter, skills_prompt}
use agentskills_go.Runtime.State.{Runtime}
use agentskills_go.Session.Activate.{Interference}
use agentskills_go.Session.Follows.{Rely}
use agentskills_go.Session.Kept.{Keeps}
use agentskills_go.Spec.{
  Ctx, Result, ok, SkillDef, ProviderResolver, key_eq, LoadArgs, UnloadArgs, ReadResourceArgs,
  RunScriptArgs,
}
use agentskills_go.Runtime.ToolCalls.{
  new_session_registry, call_load, call_unload, call_read, call_run_script,
}
use agentskills_go.Runtime.ToolsSound.{
  new_session_registry-IsSound, call_load-keeps, call_unload-IsSound, call_read-IsSound,
  call_run_script-IsSound,
}
use agentskills_go.Session.State.{Session}
use agentskills_go.Store.Ops.{touch}
use agentskills_go.Store.Create.{new_session_in-IsValid, activate_session-IsValid}
use agentskills_go.Store.State.{Store, StoreConfig, new_store}
use agentskills_go.Store.Valid.{
  IsValid, IsNew, new_store-IsValid, touch-IsValid, delete-IsValid, prune_skill-IsValid,
}
use agentskills_go.Runtime.Sound.{KeepsSound, IsSound, list_skills-IsSound, skills_prompt-IsSound}
use agentskills_go.Runtime.Kept.{
  activate_session-keeps, new_session_in-keeps, add_skill-keeps, remove_skill-keeps,
  close_session-keeps, render_skill-keeps, new_runtime_session-keeps,
}

-- What the other goroutines do to a session and to the catalog while `ActivateKeys` does not hold the
-- session's lock: they keep the session consistent and count its version up with every change of its
-- active list, and keep the catalog linked. They may prune and close the session.
pub record IsFair (others : Interference Catalog) : Type 0 where
  pub rely : Rely others
  pub linked : Keeps IsLinked others

-- What they do to the store meanwhile: any operations that keep it valid, deletions and evictions of
-- the session of the call among them.
abbrev pub KeepsValid : (Store → Store) → Type 0
KeepsValid meanwhile = (st : Store) → IsValid st → IsValid (meanwhile st)

quiet_linked : (i : ℕ) → KeepsLinked (alone i)
quiet_linked i = record { before = λ c v. v; waiting = λ c v. v; loading = λ c v. v }

module _ (sha256_hex : Bytes → Bytes) {Out : Type 0} (providers : ProviderResolver Out) where
  -- The runtimes that a history of calls leads to: those of the runtime, and those of the tools of a
  -- session. Where a call gives up a lock, the other goroutines act: on the session and the catalog
  -- as `others`, `between` and `around` say, and on the store as `meanwhile` and `before` say.
  pub data Reached : Runtime → Type 0 where
    started :
        (cfg : StoreConfig) → Reached (record { catalog = new_catalog; sessions = new_store cfg })
    added :
        {rt : Runtime} (ctx : Ctx) (def : SkillDef)
        → Reached rt
        → Reached (add_skill sha256_hex providers ctx def rt).0
    removed :
        {rt : Runtime} (ctx : Ctx) (def : SkillDef)
        → Reached rt
        → Reached (remove_skill sha256_hex providers ctx def rt).0
    listed :
        {rt : Runtime} (now later : ℕ) (between : Session → Session) (meanwhile : Store → Store)
        (ctx : Ctx) (filter : Option SkillListFilter)
        → KeepsSound between meanwhile
        → Reached rt
        → Reached (list_skills providers now later between meanwhile ctx filter rt).0
    opened :
        {rt : Runtime} (now later : ℕ) (uuid : Result Bytes) (others : ℕ → Interference Catalog)
        (meanwhile : Store → Store) (ctx : Ctx) (max_active : ℤ) (defs : List SkillDef)
        → ((id : Bytes) → uuid ≡ ok id → IsNew id rt.sessions)
        → ((n : ℕ) → IsFair (others n))
        → KeepsValid meanwhile
        → Reached rt
        → Reached
            (new_runtime_session providers now later uuid others meanwhile ctx max_active defs rt).0
    closed :
        {rt : Runtime} (ctx : Ctx) (id : Bytes) → Reached rt → Reached (close_session ctx id rt).0
    prompted :
        {rt : Runtime} (around : ℕ → ℕ → Around) (now later : ℕ) (between : Session → Session)
        (meanwhile : Store → Store) (ctx : Ctx) (filter : Option SkillFilter)
        → KeepsSound between meanwhile
        → ((j i : ℕ) → KeepsLinked (around j i))
        → Reached rt
        → Reached (skills_prompt providers around now later between meanwhile ctx filter rt).0
    rendered :
        {rt : Runtime} (around : ℕ → Around) (ctx : Ctx) (def : SkillDef) (values : Declared)
        → ((i : ℕ) → KeepsLinked (around i))
        → Reached rt
        → Reached (render_skill providers around ctx def values rt).0
    registered :
        {rt : Runtime} (now : ℕ) (ctx : Ctx) (id : Bytes)
        → Reached rt
        → Reached (new_session_registry now ctx id rt).0
    loaded :
        {rt : Runtime} (now later : ℕ) (others : ℕ → Interference Catalog)
        (before meanwhile : Store → Store) (ctx : Ctx) (id : Bytes) (args : LoadArgs)
        → ((n : ℕ) → IsFair (others n))
        → KeepsValid before
        → KeepsValid meanwhile
        → Reached rt
        → Reached (call_load providers now later others before meanwhile ctx id args rt).0
    unloaded :
        {rt : Runtime} (now : ℕ) (meanwhile : Store → Store) (ctx : Ctx) (id : Bytes)
        (args : UnloadArgs)
        → KeepsValid meanwhile
        → Reached rt
        → Reached (call_unload providers now meanwhile ctx id args rt).0
    read :
        {rt : Runtime} (now : ℕ) (meanwhile : Store → Store) (ctx : Ctx) (id : Bytes)
        (args : ReadResourceArgs)
        → KeepsValid meanwhile
        → Reached rt
        → Reached (call_read providers now meanwhile ctx id args rt).0
    run :
        {rt : Runtime} (now : ℕ) (meanwhile : Store → Store) (ctx : Ctx) (id : Bytes)
        (args : RunScriptArgs)
        → KeepsValid meanwhile
        → Reached rt
        → Reached (call_run_script providers now meanwhile ctx id args rt).0

  both-IsSound : {rt : Runtime} → IsLinked rt.catalog × IsValid rt.sessions → IsSound rt
  both-IsSound (l, v) = record { linked = l; valid = v }

  -- Every history of calls of the runtime (`AddSkill`, `RemoveSkill`, `ListSkills`, `NewSession`,
  -- `CloseSession`, `SkillsPrompt`, `RenderSkill`, `NewSessionRegistry`) and of the four tools of a
  -- session, from an empty runtime on, leads to a runtime whose catalog is linked and whose store is
  -- valid. The conditions: each new session gets an id that the store never had; and what other
  -- goroutines do while a call has given up a lock keeps the catalog linked, the session consistent
  -- and the store valid, and, during `ActivateKeys`, keeps the session's bound and counts its version
  -- up with every change of its active list (fewer than 2^62 changes in a stretch). Closing,
  -- evicting or pruning the session meanwhile is allowed.
  pub Reached-IsSound : (rt : Runtime) → Reached rt → IsSound rt
  Reached-IsSound _ (started cfg) = record {
    linked = new_catalog-IsLinked;
    valid = new_store-IsValid cfg;
  }
  Reached-IsSound _ (added {rt} ctx def h) =
      let i = Reached-IsSound rt h in
      both-IsSound (
        add_skill-keeps sha256_hex providers IsLinked IsValid rt i.linked i.valid ctx def
          (add-IsLinked sha256_hex providers none def rt.catalog i.linked))
  Reached-IsSound _ (removed {rt} ctx def h) =
      let i = Reached-IsSound rt h in
      both-IsSound (
        remove_skill-keeps sha256_hex providers IsLinked IsValid rt i.linked i.valid ctx def
          (remove-IsLinked sha256_hex def rt.catalog i.linked)
          (λ k. prune_skill-IsValid k rt.sessions i.valid))
  Reached-IsSound _ (listed {rt} now later between meanwhile ctx filter k h) =
      list_skills-IsSound providers now later between meanwhile ctx filter rt k
        (Reached-IsSound rt h)
  Reached-IsSound _
        (opened {rt} now later uuid others meanwhile ctx max_active defs fresh fair k h) =
      let i = Reached-IsSound rt h in
      let ops = catalog_ops providers in
      both-IsSound (
        new_runtime_session-keeps sha256_hex providers IsLinked IsValid rt i.linked i.valid now
          later uuid others meanwhile ctx max_active defs
          (λ par.
            new_session_in-keeps ops IsLinked others (λ n. (fair n).linked) meanwhile
              (λ x c j. ensure_body-IsLinked providers alone x j c quiet_linked) now later uuid none
              par rt.sessions rt.catalog i.linked)
          (λ par.
            new_session_in-IsValid ops others (λ n. (fair n).rely) meanwhile k now later uuid none
              par rt.sessions rt.catalog fresh i.valid))
  Reached-IsSound _ (closed {rt} ctx id h) =
      let i = Reached-IsSound rt h in
      both-IsSound (
        close_session-keeps sha256_hex providers IsLinked IsValid rt i.linked i.valid ctx id
          (delete-IsValid id rt.sessions i.valid))
  Reached-IsSound _ (prompted {rt} around now later between meanwhile ctx filter k keeps h) =
      skills_prompt-IsSound providers around now later between meanwhile ctx filter rt k keeps
        (Reached-IsSound rt h)
  Reached-IsSound _ (rendered {rt} around ctx def values keeps h) =
      let i = Reached-IsSound rt h in
      both-IsSound (
        render_skill-keeps sha256_hex providers IsLinked IsValid rt i.linked i.valid around ctx def
          values (λ k. ensure_body-IsLinked providers around none k rt.catalog keeps i.linked))
  Reached-IsSound _ (registered {rt} now ctx id h) =
      new_session_registry-IsSound now ctx id rt (Reached-IsSound rt h)
  Reached-IsSound _ (loaded {rt} now later others before meanwhile ctx id args fair kb k h) =
      let i = Reached-IsSound rt h in
      let ops = catalog_ops providers in
      let st = before (touch now id rt.sessions) in
      let v = kb (touch now id rt.sessions) (touch-IsValid now id rt.sessions i.valid) in
      both-IsSound (
        call_load-keeps providers IsLinked IsValid now later others before meanwhile ctx id args rt
          i.linked i.valid v
          (λ keys.
            activate_session-keeps ops IsLinked others (λ n. (fair n).linked) meanwhile
              (λ x c j. ensure_body-IsLinked providers alone x j c quiet_linked) later none id keys
              args.mode st rt.catalog i.linked)
          (λ keys.
            activate_session-IsValid ops others (λ n. (fair n).rely) meanwhile k later none id keys
              args.mode st rt.catalog v))
  Reached-IsSound _ (unloaded {rt} now meanwhile ctx id args k h) =
      call_unload-IsSound providers now meanwhile k ctx id rt (Reached-IsSound rt h) args
  Reached-IsSound _ (read {rt} now meanwhile ctx id args k h) =
      call_read-IsSound providers now meanwhile k ctx id rt (Reached-IsSound rt h) args
  Reached-IsSound _ (run {rt} now meanwhile ctx id args k h) =
      call_run_script-IsSound providers now meanwhile k ctx id rt (Reached-IsSound rt h) args
