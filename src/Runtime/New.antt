-- ===== src/Runtime/New.antt =====
-- runtime.go: `New` with its options, and `ProviderTypes`.
use agentskills_go.Base.{
  ℕ, ◌*◌, ℤ, pos, Bytes, bytes_eq, not, List, [], ◌∷◌, ◌++◌, Option, none, some, is_some, codes,
  ◌==◌, if◌then◌else◌, lookup, keys, map_insert,
}
use agentskills_go.Catalog.State.{new_catalog}
use agentskills_go.Runtime.State.{Runtime}
use agentskills_go.Spec.{Error, Result, ok, err, SkillProvider}
use agentskills_go.Store.State.{new_store}
use agentskills_go.Text.Sort.{sort_strings}

-- `map[string]spec.SkillProvider`, whose values may be nil, and the map without nil values.
abbrev pub GivenProviders : Type 0 → Type 0
GivenProviders Out = List (Bytes × Option (SkillProvider Out))

abbrev pub Providers : Type 0 → Type 0
Providers Out = List (Bytes × SkillProvider Out)

pub record RuntimeOptions (Out : Type 0) : Type 0 where
  pub providers : List (Option (SkillProvider Out))
  pub providers_by_type : GivenProviders Out
  pub max_active_per_session : ℤ
  pub session_ttl : ℤ
  pub max_sessions : ℤ

-- The options, by the function that makes one.
pub data RuntimeOption (Out : Type 0) : Type 0 where
  with_provider : Option (SkillProvider Out) → RuntimeOption Out
  with_providers_by_type : GivenProviders Out → RuntimeOption Out
  with_max_active_per_session : ℤ → RuntimeOption Out
  with_session_ttl : ℤ → RuntimeOption Out
  with_max_sessions : ℤ → RuntimeOption Out

-- an hour, in nanoseconds
abbrev hour : ℕ
hour = 3600 * 1000000000

module _ {Out : Type 0} where
  -- `maps.Copy`
  unfoldable pub copy_providers : GivenProviders Out → GivenProviders Out → GivenProviders Out
  copy_providers dst [] = dst
  copy_providers dst ((t, p) ∷ src) = copy_providers (map_insert t p dst) src

  unfoldable pub default_options : RuntimeOptions Out
  default_options = record {
    providers = [];
    providers_by_type = [];
    max_active_per_session = pos 8;
    session_ttl = pos (24 * hour);
    max_sessions = pos 4096;
  }

  unfoldable pub apply_option : RuntimeOption Out → RuntimeOptions Out → RuntimeOptions Out
  apply_option (with_provider p) o = record o { providers = o.providers ++ (p ∷ []) }
  apply_option (with_providers_by_type m) o = record o {
    providers_by_type = copy_providers o.providers_by_type m;
  }
  apply_option (with_max_active_per_session n) o = record o { max_active_per_session = n }
  apply_option (with_session_ttl ttl) o = record o { session_ttl = ttl }
  apply_option (with_max_sessions n) o = record o { max_sessions = n }

  -- The loop over the options; `none` is a nil option.
  unfoldable pub apply_options :
      List (Option (RuntimeOption Out)) → RuntimeOptions Out → RuntimeOptions Out
  apply_options [] cfg = cfg
  apply_options (none ∷ opts) cfg = apply_options opts cfg
  apply_options (some o ∷ opts) cfg = apply_options opts (apply_option o cfg)

  abbrev pub refused : Bytes → Result (Providers Out)
  refused text = err (Error.other text)

  -- The loop over the providers.
  unfoldable pub add_providers :
      Providers Out → List (Option (SkillProvider Out)) → Result (Providers Out)
  add_providers providers [] = ok providers
  add_providers providers (none ∷ ps) = refused (codes "nil provider")
  add_providers providers (some p ∷ ps) =
      let rest = add_providers (map_insert p.type p providers) ps in
      if p.type == []
      then refused (codes "provider.Type() returned empty string")
      else if is_some (lookup p.type providers)
      then refused (codes "duplicate provider type")
      else rest

  -- The loop over the providers by type.
  unfoldable pub add_typed_providers : Providers Out → GivenProviders Out → Result (Providers Out)
  add_typed_providers providers [] = ok providers
  add_typed_providers providers ((t, none) ∷ ps) = refused (codes "nil provider for type")
  add_typed_providers providers ((t, some p) ∷ ps) =
      let rest = add_typed_providers (map_insert t p providers) ps in
      if t == []
      then refused (codes "empty provider type key")
      else if is_some (lookup t providers)
      then refused (codes "duplicate provider type")
      else if not (p.type == t)
      then refused (codes "provider type mismatch")
      else rest

  unfoldable pub providers_of : RuntimeOptions Out → Result (Providers Out)
  providers_of cfg = elim (add_providers [] cfg.providers) [
    | err e ↦ err e
    | ok providers ↦ add_typed_providers providers cfg.providers_by_type
  ]

  -- `New`: the runtime, and its providers.
  unfoldable pub new_runtime : List (Option (RuntimeOption Out)) → Result (Runtime × Providers Out)
  new_runtime opts =
      let cfg = apply_options opts default_options in
      elim (providers_of cfg) [
        | err e ↦ err e
        | ok providers ↦ ok (
          record {
            catalog = new_catalog;
            sessions = new_store (record {
              ttl = cfg.session_ttl;
              max_sessions = cfg.max_sessions;
              max_active_per_session = cfg.max_active_per_session;
            });
          },
          providers,
        )
      ]

  -- `ProviderTypes`
  unfoldable pub provider_types : Providers Out → List Bytes
  provider_types providers = sort_strings (keys providers)
