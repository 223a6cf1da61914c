-- ===== src/FsProvider/Scripts.antt =====
-- A script runs only where scripts are enabled, and only under the root of its skill.
use agentskills_go.Base.{
  Bytes, bytes_eq, Bool, true, false, List, [], ◌∷◌, Option, none, some, ◌≡◌, ◌∙◌, refl, sym, ap,
  arith, inl, inr, Option-cases,
}
use agentskills_go.FsProvider.Calls.{
  fs_type, run_skill_script, read_skill_resource, resource_encoding,
}
use agentskills_go.FsProvider.Config.{
  Config, ProviderOption, with_run_scripts, with_execution_policy, with_run_script_policy,
  with_allowed_script_extensions, apply_provider_option, apply_provider_options, default_config,
  effective_policy, harden, new_provider,
}
use agentskills_go.FsProvider.Roots.{canonical_root}
use agentskills_go.FsProvider.System.{FileSystem, Tools}
use agentskills_go.Spec.{Result-cases, ok, ProviderSkillKey, RunScriptOut}
use agentskills_go.Text.{trim_space}

module _ {Policy Exec Out : Type 0} (tools : Tools Policy Exec Out) where
  -- The last of the options `WithRunScripts`, and `enabled` if there is none.
  abbrev pub scripts_enabled : Bool → List (Option (ProviderOption Policy Exec)) → Bool
  scripts_enabled enabled [] = enabled
  scripts_enabled enabled (none ∷ opts) = scripts_enabled enabled opts
  scripts_enabled enabled (some (with_run_scripts b) ∷ opts) = scripts_enabled b opts
  scripts_enabled enabled (some _ ∷ opts) = scripts_enabled enabled opts

  apply_provider_options-enabled :
      (opts : List (Option (ProviderOption Policy Exec))) (p q : Config Policy Exec)
      → apply_provider_options tools opts p ≡ ok q
      → q.run_scripts_enabled ≡ scripts_enabled p.run_scripts_enabled opts
  unfolding apply_provider_options apply_provider_option
  apply_provider_options-enabled [] p q h = ground arith
  apply_provider_options-enabled (none ∷ opts) p q h = apply_provider_options-enabled opts p q h
  apply_provider_options-enabled (some (with_run_scripts b) ∷ opts) p q h =
      apply_provider_options-enabled opts (record p { run_scripts_enabled = b }) q h
  apply_provider_options-enabled (some (with_execution_policy policy) ∷ opts) p q h =
      apply_provider_options-enabled opts (record p { exec_policy = policy }) q h
  apply_provider_options-enabled (some (with_run_script_policy policy) ∷ opts) p q h =
      elim (Result-cases (tools.normalize_policy policy)) [
        | inl (norm, e) ↦
            apply_provider_options-enabled opts (record p { run_script_policy = norm }) q
              (ground arith)
        | inr (x, e) ↦ absurd (ground arith)
      ]
  apply_provider_options-enabled (some (with_allowed_script_extensions exts) ∷ opts) p q h =
      apply_provider_options-enabled opts _ q h

  -- A new provider runs scripts exactly if the last option `WithRunScripts` says so, and does not if
  -- there is none; its policy is a normalised one.
  pub new_provider-scripts :
      (windows : Bool) (opts : List (Option (ProviderOption Policy Exec))) (p : Config Policy Exec)
      → new_provider tools windows opts ≡ ok p
      → (p.run_scripts_enabled ≡ scripts_enabled false opts)
        × ((q : Policy) × (tools.normalize_policy q ≡ ok p.run_script_policy))
  unfolding new_provider harden
  new_provider-scripts windows opts p h =
      elim (Result-cases (apply_provider_options tools opts (default_config tools))) [
        | inr (x, e) ↦ absurd (ground arith)
        | inl (c, e) ↦
            let s = apply_provider_options-enabled opts (default_config tools) c e in
            elim (Result-cases (tools.normalize_policy (effective_policy tools windows c))) [
              | inr (x, f) ↦ absurd (ground arith)
              | inl (norm, f) ↦
                  let same : record c { run_script_policy = norm } ≡ p = ground arith in
                  (
                    sym (ap (λ x. x.run_scripts_enabled) same)
                        ∙ s
                        ∙ (unfold default_config in refl),
                    (effective_policy tools windows c, f ∙ ap (λ x. ok x.run_script_policy) same),
                  )
            ]
      ]

module _ (fs : FileSystem) {Policy Exec Out : Type 0} (tools : Tools Policy Exec Out)
    (p : Config Policy Exec) where
  -- A call of `RunScript` succeeds only if scripts are enabled and the key has the type fs, and then
  -- the tool, made for the canonical root of the key and no other, has run the trimmed script location
  -- under the policies of the provider, and the receipt is the tool's with that location.
  pub run_skill_script-scoped :
      (key : ProviderSkillKey) (script : Bytes) (args : List Bytes) (env : List (Bytes × Bytes))
      (work_dir : Bytes) (out : RunScriptOut)
      → run_skill_script fs tools p none key script args env work_dir ≡ ok out
      → (p.run_scripts_enabled ≡ true)
        × (key.type ≡ fs_type)
        × ((root : Bytes) × (res : RunScriptOut) × (canonical_root fs key.location ≡ ok root)
            × (tools.run_script p.exec_policy p.run_script_policy root
                  (trim_space script)
                  args
                  env
                  work_dir
                ≡ ok (some res))
            × (out ≡ record res { location = trim_space script }))
  unfolding run_skill_script
  run_skill_script-scoped key script args env work_dir out h =
      elim (Result-cases (canonical_root fs key.location)) [
        | inr (x, e) ↦ absurd (ground arith)
        | inl (root, e) ↦
            let run =
              tools.run_script p.exec_policy p.run_script_policy root (trim_space script) args env
                work_dir in
            elim (Result-cases run) [
              | inr (x, f) ↦ absurd (ground arith)
              | inl (none, f) ↦ absurd (ground arith)
              | inl (some res, f) ↦ (
                ground arith,
                ground (arith, bytes_eq.beq_iff key.type fs_type),
                (root, res, e, f, ground arith),
              )
            ]
      ]

  -- A call of `ReadResource` succeeds only if the key has the type fs and the encoding is text or
  -- binary (text if it is blank), and then the tool, made for the canonical root of the key and no
  -- other, has read the location.
  pub read_skill_resource-scoped :
      (key : ProviderSkillKey) (location encoding : Bytes) (out : Out)
      → read_skill_resource fs tools p none key location encoding ≡ ok out
      → (key.type ≡ fs_type)
        × ((root : Bytes) × (enc : Bytes) × (canonical_root fs key.location ≡ ok root)
            × (resource_encoding encoding ≡ some enc)
            × (tools.read_file root location enc ≡ ok out))
  unfolding read_skill_resource
  read_skill_resource-scoped key location encoding out h =
      elim (Result-cases (canonical_root fs key.location)) [
        | inr (x, e) ↦ absurd (ground arith)
        | inl (root, e) ↦ elim (Option-cases (resource_encoding encoding)) [
          | inl f ↦ absurd (ground arith)
          | inr (enc, f) ↦
              (ground (arith, bytes_eq.beq_iff key.type fs_type), (root, enc, e, f, ground arith))
        ]
      ]
