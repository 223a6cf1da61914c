-- ===== src/Session/Tools.antt =====
-- tools_impl.go: the four tools that a session offers to a language model.
use agentskills_go.Base.{
  ℕ, ◌&&◌, ◌||◌, not, List, [], ◌∷◌, ◌++◌, none, some, keep, contains, set_insert, if◌then◌else◌,
}
use agentskills_go.Spec.{
  ProviderSkillKey, SkillHandle, key_eq, Result, ok, err, Error, Ctx, LoadArgs, UnloadArgs,
  ReadResourceArgs, RunScriptArgs, RunScriptOut, SkillProvider, ProviderResolver,
  read_resource_encoding_text,
}
use agentskills_go.Session.Activate.{Interference, load_mode, activate_keys}
use agentskills_go.Session.State.{
  Catalog, Session, next_version, is_empty, is_active, without, active_handles,
}
use agentskills_go.Text.{is_blank}

module _ {C : Type 0} (cat : Catalog C) where
  -- The resolution loop of `toolLoad`; `seen` holds the keys so far, in order.
  unfoldable pub resolve_keys :
      C → List ProviderSkillKey → List SkillHandle → Result (List ProviderSkillKey)
  resolve_keys c seen [] = ok seen
  resolve_keys c seen (h ∷ hs) =
      if is_blank h.name || is_blank h.location
      then err Error.invalid_argument
      else elim (cat.resolve_handle c h) [
        | none ↦ err Error.skill_not_found
        | some k ↦ resolve_keys c (if contains k seen then seen else seen ++ k ∷ []) hs
      ]

  -- `toolLoad`. Both it and `ActivateKeys` touch the session.
  unfoldable pub tool_load :
      (Session → Session)
      → (ℕ → Interference C)
      → Ctx
      → LoadArgs
      → Session × C
      → (Session × C) × Result (List SkillHandle)
  tool_load touch others (some e) args st = (st, err e)
  tool_load touch others none args (s, c) =
      let s' = touch s in
      if s'.closed then ((s', c), err Error.session_not_found) else elim (load_mode args.mode) [
        | none ↦ ((s', c), err Error.invalid_argument)
        | some replace ↦
            if is_empty args.skills
            then ((s', c), err Error.invalid_argument)
            else elim (resolve_keys c [] args.skills) [
              | err e ↦ ((s', c), err e)
              | ok keys ↦ activate_keys cat touch others none keys args.mode (s', c)
            ]
      ]

  -- The resolution loop of `toolUnload`.
  unfoldable pub resolve_set :
      C → List ProviderSkillKey → List SkillHandle → Result (List ProviderSkillKey)
  resolve_set c rm [] = ok rm
  resolve_set c rm (h ∷ hs) =
      if is_blank h.name || is_blank h.location
      then err Error.invalid_argument
      else elim (cat.resolve_handle c h) [
        | none ↦ err Error.skill_not_found
        | some k ↦ resolve_set c (set_insert k rm) hs
      ]

  -- The stretch of `toolUnload` with `all` that holds the lock.
  unfoldable pub unload_all : C → Session → Session × List SkillHandle
  unload_all c s = active_handles cat c (record s {
    active_set = [];
    active_order = [];
    state_version = next_version s.state_version;
  })

  -- The stretch of `toolUnload` without `all` that holds the lock.
  unfoldable pub unload_keys : List ProviderSkillKey → C → Session → Session × List SkillHandle
  unload_keys rm c s =
      let next_set = without rm s.active_set in
      active_handles cat c (record s {
        active_set = next_set;
        active_order = keep (λ k. not (contains k rm) && contains k next_set) s.active_order;
        state_version = next_version s.state_version;
      })

  -- `toolUnload`
  unfoldable pub tool_unload :
      (Session → Session) → Ctx → UnloadArgs → C → Session → Session × Result (List SkillHandle)
  tool_unload touch (some e) args c s = (s, err e)
  tool_unload touch none args c s =
      let s' = touch s in
      if s'.closed
      then (s', err Error.session_not_found)
      else if not args.all && is_empty args.skills
      then (s', err Error.invalid_argument)
      else if args.all
      then ((unload_all c s').0, ok (unload_all c s').1)
      else elim (resolve_set c [] args.skills) [
        | err e ↦ (s', err e)
        | ok rm ↦ ((unload_keys rm c s').0, ok (unload_keys rm c s').1)
      ]

  module _ {Out : Type 0} (providers : ProviderResolver Out) where
    -- The key that a tool call names, if it is active, and its provider.
    unfoldable pub active_provider :
        C → Session → SkillHandle → Result (ProviderSkillKey × SkillProvider Out)
    active_provider c s h = elim (cat.resolve_handle c h) [
      | none ↦ err Error.skill_not_found
      | some k ↦
          if not (is_active s k)
          then err Error.skill_not_active
          else elim (providers k.type) [ none ↦ err Error.provider_not_found | some p ↦ ok (k, p) ]
    ]

    -- `toolRead`
    unfoldable pub tool_read :
        (Session → Session) → Ctx → ReadResourceArgs → C → Session → Session × Result Out
    tool_read touch (some e) args c s = (s, err e)
    tool_read touch none args c s =
        let s' = touch s in
        if s'.closed
        then (s', err Error.session_not_found)
        else if is_blank args.skill_name || is_blank args.skill_location
        then (s', err Error.invalid_argument)
        else if is_blank args.resource_location
        then (s', err Error.invalid_argument)
        else elim (active_provider c s'
            (record { name = args.skill_name; location = args.skill_location })) [
              | err e ↦ (s', err e)
              | ok (k, p) ↦ (
                s',
                p.read_resource none k args.resource_location
                    (if is_blank args.encoding then read_resource_encoding_text else args.encoding),
              )
            ]

    -- `toolRunScript`
    unfoldable pub tool_run_script :
        (Session → Session) → Ctx → RunScriptArgs → C → Session → Session × Result RunScriptOut
    tool_run_script touch (some e) args c s = (s, err e)
    tool_run_script touch none args c s =
        let s' = touch s in
        if s'.closed
        then (s', err Error.session_not_found)
        else if is_blank args.skill_name || is_blank args.skill_location
        then (s', err Error.invalid_argument)
        else if is_blank args.script_location
        then (s', err Error.invalid_argument)
        else elim (active_provider c s'
            (record { name = args.skill_name; location = args.skill_location })) [
              | err e ↦ (s', err e)
              | ok (k, p) ↦
                  (s', p.run_script none k args.script_location args.args args.env args.work_dir)
            ]
