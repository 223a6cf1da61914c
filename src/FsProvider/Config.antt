-- ===== src/FsProvider/Config.antt =====
-- `New` and its options.
use agentskills_go.Base.{
  Bytes, bytes_eq, Bool, true, false, List, [], ◌∷◌, Option, none, some, codes, nat_beq, ◌==◌,
  if◌then◌else◌,
}
use agentskills_go.Catalog.Filters.{is_nil}
use agentskills_go.FsProvider.System.{Tools}
use agentskills_go.Spec.{Result, ok, err}
use agentskills_go.Text.{trim_space}

pub record Config (Policy Exec : Type 0) : Type 0 where
  pub run_scripts_enabled : Bool
  pub exec_policy : Exec
  pub run_script_policy : Policy
  pub allowed_script_ext : List Bytes
  pub allowed_script_ext_set : Bool

-- The options, by the function that makes one.
pub data ProviderOption (Policy Exec : Type 0) : Type 0 where
  with_run_scripts : Bool → ProviderOption Policy Exec
  with_execution_policy : Exec → ProviderOption Policy Exec
  with_run_script_policy : Policy → ProviderOption Policy Exec
  with_allowed_script_extensions : List Bytes → ProviderOption Policy Exec

-- `strings.HasPrefix(e, ".")`
abbrev pub starts_with_dot : Bytes → Bool
starts_with_dot [] = false
starts_with_dot (a ∷ s) = nat_beq a b'.'

abbrev pub default_extensions : Bool → List Bytes
default_extensions true = codes ".ps1" ∷ codes ".py" ∷ []
default_extensions false = codes ".sh" ∷ codes ".py" ∷ []

module _ {Policy Exec Out : Type 0} (tools : Tools Policy Exec Out) where
  -- The loop of `WithAllowedScriptExtensions`.
  unfoldable pub normalize_extensions : List Bytes → List Bytes
  normalize_extensions [] = []
  normalize_extensions (raw ∷ exts) =
      let rest = normalize_extensions exts in
      let e = tools.to_lower (trim_space raw) in
      if e == [] then rest else (if starts_with_dot e then e else b'.' ∷ e) ∷ rest

  unfoldable pub apply_provider_option :
      ProviderOption Policy Exec → Config Policy Exec → Result (Config Policy Exec)
  apply_provider_option (with_run_scripts enabled) p =
      ok (record p { run_scripts_enabled = enabled })
  apply_provider_option (with_execution_policy policy) p = ok (record p { exec_policy = policy })
  apply_provider_option (with_run_script_policy policy) p = elim (tools.normalize_policy policy) [
    | err e ↦ err e
    | ok norm ↦ ok (record p { run_script_policy = norm })
  ]
  apply_provider_option (with_allowed_script_extensions exts) p =
      ok
        (record p { allowed_script_ext = normalize_extensions exts; allowed_script_ext_set = true })

  -- The loop over the options; `none` is a nil option.
  unfoldable pub apply_provider_options :
      List (Option (ProviderOption Policy Exec)) → Config Policy Exec → Result (Config Policy Exec)
  apply_provider_options [] p = ok p
  apply_provider_options (none ∷ opts) p = apply_provider_options opts p
  apply_provider_options (some o ∷ opts) p = elim (apply_provider_option o p) [
    | err e ↦ err e
    | ok p' ↦ apply_provider_options opts p'
  ]

  unfoldable pub default_config : Config Policy Exec
  default_config = record {
    run_scripts_enabled = false;
    exec_policy = tools.default_execution_policy;
    run_script_policy = tools.default_run_script_policy;
    allowed_script_ext = [];
    allowed_script_ext_set = false;
  }

  -- The extensions that are in force: those set, else those of the policy, else the defaults.
  unfoldable pub effective_policy : Bool → Config Policy Exec → Policy
  effective_policy windows p =
      if p.allowed_script_ext_set
      then tools.set_allowed_extensions p.allowed_script_ext p.run_script_policy
      else if is_nil (tools.allowed_extensions p.run_script_policy)
      then tools.set_allowed_extensions (default_extensions windows) p.run_script_policy
      else p.run_script_policy

  unfoldable pub harden : Bool → Config Policy Exec → Result (Config Policy Exec)
  harden windows p = elim (tools.normalize_policy (effective_policy windows p)) [
    | err e ↦ err e
    | ok norm ↦ ok (record p { run_script_policy = norm })
  ]

  -- `New`
  unfoldable pub new_provider :
      Bool → List (Option (ProviderOption Policy Exec)) → Result (Config Policy Exec)
  new_provider windows opts = elim (apply_provider_options opts default_config) [
    | err e ↦ err e
    | ok p ↦ harden windows p
  ]
