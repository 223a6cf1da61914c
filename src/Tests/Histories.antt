-- ===== src/Tests/Histories.antt =====
-- Histories of calls, new runtimes and prompts.
use agentskills_go.Base.{
  Bytes, bytes_eq, not, List, [], ◌∷◌, ◌++◌, Option, none, some, codes, keep, ◌≡◌, refl, pos, ℕ,
  contains, true, false,
}
use agentskills_go.Catalog.Filters.{prompt_match, prefix_allows, some_insert, insert_matches}
use agentskills_go.Catalog.Listing.{list_prompt_index_records, prompt_records}
use agentskills_go.Catalog.Body.{Around}
use agentskills_go.Catalog.Cache.{alone}
use agentskills_go.Catalog.Changes.{IsLinked, insert_entry-IsLinked}
use agentskills_go.Catalog.Ops.{insert_entry}
use agentskills_go.Catalog.State.{Catalog, new_catalog}
use agentskills_go.Prompt.Texts.{
  available_skills_prompt, active_skills_prompt, available_item, available_items, active_item,
  active_items, optional_line, trim_inline, replace_crlf, replace_byte, trim_trailing_newlines,
  drop_newlines,
}
use agentskills_go.Runtime.Calls.{add_skill, keys_in_session, new_runtime_session}
use agentskills_go.Runtime.Filters.{normalize_types, normalize_allow, normalize_activity}
use agentskills_go.Runtime.Histories.{started, added, opened, unloaded, IsFair, Reached-IsSound}
use agentskills_go.Runtime.New.{
  Providers, RuntimeOption, with_provider, copy_providers, default_options, apply_option,
  apply_options, add_providers, add_typed_providers, providers_of, new_runtime, provider_types,
}
use agentskills_go.Runtime.Prompt.{
  SkillFilter, normalize_skills_prompt_filter, to_catalog_prompt_filter, wrapped_parts,
  wrap_skills_prompt, available_entry, available_entries, active_round, active_entries,
  join_sections, prompt_sections, skills_prompt, record_keys,
}
use agentskills_go.Runtime.Providers.{AreTyped, RegistersAll, new_runtime-AreTyped}
use agentskills_go.Runtime.Sections.{
  is_instruction, join_sections_lem, list_prompt_index_records-instructions,
}
use agentskills_go.Runtime.Sound.{IsSound}
use agentskills_go.Runtime.ToolCalls.{call_unload}
use agentskills_go.Runtime.State.{Runtime, has_outer_space}
use agentskills_go.Spec.{
  ok, err, Error, key_eq, ProviderSkillIndexRecord, UnloadArgs, skill_insert_user_message,
}
use agentskills_go.Store.State.{StoreConfig, new_store}
use agentskills_go.Tests.Data.{
  program, digest, providers, provider, both, one, def_a, def_b, key_b, index_of,
}
use agentskills_go.Tests.Catalogs.{one-IsLinked}
use agentskills_go.Tests.Stores.{unchanged, quiet-Rely, id_s}
use agentskills_go.Session.Success.{quiet}
use agentskills_go.Store.Ops.{delete}
use agentskills_go.Store.Valid.{delete-IsValid}
use agentskills_go.Text.Order.{pair_less, insert_by, sort_by}
use agentskills_go.Text.Sort.{IsAscending}

prompts : Unit {0}
unfolding program prompt_match prefix_allows some_insert insert_matches list_prompt_index_records
    prompt_records available_skills_prompt active_skills_prompt available_item available_items
    active_item active_items optional_line trim_inline replace_crlf replace_byte
    trim_trailing_newlines drop_newlines add_skill keys_in_session normalize_types normalize_allow
    normalize_activity copy_providers default_options apply_option apply_options add_providers
    add_typed_providers providers_of new_runtime provider_types normalize_skills_prompt_filter
    to_catalog_prompt_filter wrapped_parts wrap_skills_prompt available_entry available_entries
    active_round active_entries prompt_sections skills_prompt has_outer_space pair_less insert_by
    sort_by
prompts = tt

abbrev store_config : StoreConfig
store_config = record { ttl = pos 100; max_sessions = pos 2; max_active_per_session = pos 2 }

abbrev empty : Runtime
empty = record { catalog = new_catalog; sessions = new_store store_config }

quiet-IsFair : (n : ℕ) → IsFair (quiet n)
quiet-IsFair n = record {
  rely = quiet-Rely n;
  linked = record { before = λ st v. v; mid = λ st v. v; late = λ st v. v };
}

-- A skill is added, a session is opened with it, and closed by another goroutine while the tool that
-- unloads all skills runs.
abbrev one_skill : Runtime
one_skill = (add_skill digest providers none def_a empty).0

abbrev one_session : Runtime
one_session =
    (new_runtime_session providers 5 6 (ok id_s) quiet unchanged none (pos 0) (def_a ∷ [])
      one_skill).0

abbrev unload_all_skills : UnloadArgs
unload_all_skills = record { skills = []; all = true }

Reached-IsSound_example :
    IsSound (call_unload providers 7 (delete id_s) none id_s unload_all_skills one_session).0
unfolding prompts
Reached-IsSound_example =
    Reached-IsSound digest providers
      (call_unload providers 7 (delete id_s) none id_s unload_all_skills one_session).0
      (unloaded 7 (delete id_s) none id_s unload_all_skills (delete-IsValid id_s) (
        opened 5 6 (ok id_s) quiet unchanged none (pos 0) (def_a ∷ []) (λ id e. refl) quiet-IsFair
          (λ st v. v) (added none def_a (started store_config))))

abbrev option_fs : List (Option (RuntimeOption Bytes))
option_fs = none ∷ some (with_provider (some provider)) ∷ []

abbrev one_provider : Providers Bytes
one_provider = (codes "fs", provider) ∷ []

abbrev default_runtime : Runtime
default_runtime = record {
  catalog = new_catalog;
  sessions = new_store (record {
    ttl = pos 86400000000000;
    max_sessions = pos 4096;
    max_active_per_session = pos 8;
  });
}

made : new_runtime option_fs ≡ ok (default_runtime, one_provider)
unfolding prompts
made = refl

new_runtime-AreTyped_example :
    AreTyped one_provider
    × RegistersAll option_fs one_provider
    × IsAscending (provider_types one_provider)
new_runtime-AreTyped_example = new_runtime-AreTyped option_fs default_runtime one_provider made

-- The same provider twice is refused.
made_twice :
    new_runtime (some (with_provider (some provider)) ∷ option_fs)
    ≡ err (Error.other (codes "duplicate provider type"))
unfolding prompts
made_twice = refl

shown :
    (skills_prompt providers
      (λ n. alone)
      0
      0
      (λ s. s)
      unchanged
      none
      none
      (record { catalog = both; sessions = new_store store_config })).1
    ≡ ok (
        codes
          "<<<AVAILABLE_SKILLS>>>\nname: a\nlocation: /a\ndescription: a skill\n---\nname: b\nlocation: /b\ndescription: a skill\n<<<END_AVAILABLE_SKILLS>>>")
unfolding prompts
shown = refl

join_sections_lem_example :
    (join_sections (available_skills_prompt []) [] ≡ available_skills_prompt [])
    × (join_sections [] (active_skills_prompt []) ≡ active_skills_prompt [])
    × (join_sections (available_skills_prompt []) (active_skills_prompt [])
        ≡ codes "<<<SKILLS_PROMPT>>>\n"
          ++ (available_skills_prompt []
              ++ (codes "\n" ++ (active_skills_prompt [] ++ codes "\n<<<END_SKILLS_PROMPT>>>"))))
join_sections_lem_example = join_sections_lem [] []

abbrev all_skills : SkillFilter
all_skills = record {
  types = [];
  name_prefix = [];
  location_prefix = [];
  allow_skills = [];
  session_id = [];
  activity = codes "any";
}

-- the skill `b` as a user message, beside the skill `a`
abbrev user_b : ProviderSkillIndexRecord
user_b = record (index_of key_b) { insert = skill_insert_user_message }

abbrev mixed : Catalog
mixed = (insert_entry digest def_b user_b one).0

mixed-IsLinked : IsLinked mixed
unfolding program
mixed-IsLinked = insert_entry-IsLinked digest def_b user_b one one-IsLinked

list_prompt_index_records-instructions_example :
    (keep
        (λ r. not (is_instruction r))
        (list_prompt_index_records (to_catalog_prompt_filter all_skills) mixed)
      ≡ [])
    × (contains key_b
          (record_keys (list_prompt_index_records (to_catalog_prompt_filter all_skills) mixed))
        ≡ false)
    × ((around : ℕ → Around) (now : Catalog)
        → active_round providers around
            (record_keys (list_prompt_index_records (to_catalog_prompt_filter all_skills) mixed))
            key_b
            now
          ≡ (now, ok none))
unfolding prompts
list_prompt_index_records-instructions_example =
    list_prompt_index_records-instructions providers all_skills mixed key_b user_b mixed-IsLinked
      (refl, (refl, tt)) refl refl
