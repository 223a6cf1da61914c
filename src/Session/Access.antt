-- ===== src/Session/Access.antt =====
-- The tools that call a provider do so only for an active skill.
use agentskills_go.Base.{true, false, ◌≡◌, arith, inl, inr, none, some, contains, if◌then◌else◌}
use agentskills_go.Session.State.{Catalog, Session, is_active}
use agentskills_go.Session.Tools.{active_provider, tool_read, tool_run_script}
use agentskills_go.Spec.{
  ProviderSkillKey, SkillHandle, key_eq, ok, Ctx, ReadResourceArgs, RunScriptArgs, RunScriptOut,
  SkillProvider, ProviderResolver, Result-cases, read_resource_encoding_text,
}
use agentskills_go.Text.{is_blank}

module _ {C : Type 0} (cat : Catalog C) (c : C) {Out : Type 0}
    (providers : ProviderResolver Out) where
  -- What a tool has found out before it calls the provider `p` for the key `k`.
  pub record Granted (s : Session) (h : SkillHandle) (k : ProviderSkillKey) (p : SkillProvider Out)
      : Type 0 where
    pub alive : s.closed ≡ false
    pub resolved : cat.resolve_handle c h ≡ some k
    pub active : contains k s.active_set ≡ true
    pub provider : providers k.type ≡ some p

  active_provider-Granted :
      (s : Session) (h : SkillHandle) (k : ProviderSkillKey) (p : SkillProvider Out)
      → s.closed ≡ false
      → active_provider cat providers c s h ≡ ok (k, p)
      → Granted s h k p
  unfolding active_provider is_active
  active_provider-Granted s h k p alive e = ground arith

  -- If `skills-readresource` succeeds, the session is open, the handle resolves to a key that is
  -- active in it, the result is what the provider of the key's type returns for that key, and the
  -- call has only touched the session.
  pub tool_read-Granted :
      (touch : Session → Session) (ctx : Ctx) (args : ReadResourceArgs) (s s' : Session) (out : Out)
      → tool_read cat providers touch ctx args c s ≡ (s', ok out)
      → (k : ProviderSkillKey) × (p : SkillProvider Out) × (s' ≡ touch s)
        × Granted (touch s) (record { name = args.skill_name; location = args.skill_location }) k p
        × (p.read_resource none k args.resource_location
              (if is_blank args.encoding then read_resource_encoding_text else args.encoding)
            ≡ ok out)
  unfolding tool_read
  tool_read-Granted touch (some x) args s s' out e = absurd (ground arith)
  tool_read-Granted touch none args s s' out e =
      let h : SkillHandle = record { name = args.skill_name; location = args.skill_location } in
      elim (Result-cases (active_provider cat providers c (touch s) h)) [
        | inl ((k, p), found) ↦ (
          k,
          p,
          ground arith,
          active_provider-Granted (touch s) h k p (ground arith) found,
          ground arith,
        )
        | inr (x, bad) ↦ absurd (ground arith)
      ]

  -- If `skills-runscript` succeeds, the session is open, the handle resolves to a key that is
  -- active in it, the result is what the provider of the key's type returns for that key and the
  -- arguments of the call, and the call has only touched the session.
  pub tool_run_script-Granted :
      (touch : Session → Session) (ctx : Ctx) (args : RunScriptArgs) (s s' : Session)
      (out : RunScriptOut)
      → tool_run_script cat providers touch ctx args c s ≡ (s', ok out)
      → (k : ProviderSkillKey) × (p : SkillProvider Out) × (s' ≡ touch s)
        × Granted (touch s) (record { name = args.skill_name; location = args.skill_location }) k p
        × (p.run_script none k args.script_location args.args args.env args.work_dir ≡ ok out)
  unfolding tool_run_script
  tool_run_script-Granted touch (some x) args s s' out e = absurd (ground arith)
  tool_run_script-Granted touch none args s s' out e =
      let h : SkillHandle = record { name = args.skill_name; location = args.skill_location } in
      elim (Result-cases (active_provider cat providers c (touch s) h)) [
        | inl ((k, p), found) ↦ (
          k,
          p,
          ground arith,
          active_provider-Granted (touch s) h k p (ground arith) found,
          ground arith,
        )
        | inr (x, bad) ↦ absurd (ground arith)
      ]
