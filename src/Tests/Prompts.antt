-- ===== src/Tests/Prompts.antt =====
-- Prompts and listings.
use agentskills_go.Base.{
  true, false, ◌+◌, ◌==◌, bytes_eq, [], ◌∷◌, codes, length, keep, contains, nat_eq, ◌≡◌, refl,
}
use agentskills_go.Catalog.Filters.{
  PromptFilter, UserFilter, prompt_match, user_match, prefix_allows, some_insert, insert_matches,
}
use agentskills_go.Catalog.Listing.{
  record_key, list_prompt_index_records, list_user_entries, count, list_prompt_index_records_lem,
  prompt_records, user_entries,
}
use agentskills_go.Prompt.Lines.{
  lines, has_location, has_description, lines-available_skills_prompt, trim_inline_lem,
}
use agentskills_go.Prompt.Texts.{
  AvailableSkillItem, available_skills_prompt, active_skills_prompt, available_item,
  available_items, active_item, active_items, optional_line, trim_inline, trim_trailing_newlines,
  drop_newlines, replace_crlf, replace_byte,
}
use agentskills_go.Spec.{SkillResourceInfo}
use agentskills_go.Tests.Data.{program, both, index_of, key_a}
use agentskills_go.Text.Order.{pair_less, insert_by, sort_by, is_sorted}

prompts : Unit {0}
unfolding program available_skills_prompt active_skills_prompt available_item available_items
    active_item active_items optional_line trim_inline trim_trailing_newlines drop_newlines
    replace_crlf replace_byte pair_less insert_by sort_by prompt_match user_match prefix_allows
    some_insert insert_matches list_prompt_index_records list_user_entries prompt_records
    user_entries
prompts = tt

abbrev resources : SkillResourceInfo
resources = (index_of key_a).resources

abbrev item_b : AvailableSkillItem
item_b = record {
  name = codes "b";
  description = 120 ∷ 13 ∷ 10 ∷ 121 ∷ [];
  location = codes "/b";
  resources = resources;
}

abbrev item_a : AvailableSkillItem
item_a = record { name = codes "a\n"; description = []; location = []; resources = resources }

available :
    available_skills_prompt (item_b ∷ item_a ∷ [])
    ≡ codes
        "<<<AVAILABLE_SKILLS>>>\nname: a\n---\nname: b\nlocation: /b\ndescription: x y\n<<<END_AVAILABLE_SKILLS>>>"
unfolding prompts
available = refl

active :
    active_skills_prompt
      (record { name = codes "a"; body = codes "Do it.\n\n"; resources = resources } ∷ [])
    ≡ codes "<<<ACTIVE_SKILLS>>>\nname: a\nbody:\nDo it.\n<<<END_ACTIVE_SKILLS>>>"
unfolding prompts
active = refl

lines-available_skills_prompt_example :
    lines (available_skills_prompt (item_b ∷ item_a ∷ []))
    ≡ 1
      + length (item_b ∷ item_a ∷ [])
      + length (keep has_location (item_b ∷ item_a ∷ []))
      + length (keep has_description (item_b ∷ item_a ∷ []))
      + length (item_a ∷ [])
lines-available_skills_prompt_example = lines-available_skills_prompt item_b (item_a ∷ [])

trim_inline_lem_example :
    (contains 10 (trim_inline (codes "a\nb\n")) ≡ false)
    × (contains 13 (trim_inline (codes "a\nb\n")) ≡ false)
trim_inline_lem_example = trim_inline_lem (codes "a\nb\n")

abbrev only_fs : PromptFilter
only_fs = record {
  types = codes "fs" ∷ [];
  llm_name_prefix = [];
  location_prefix = codes "/";
  inserts = codes "instructions" ∷ [];
  allow_defs = [];
}

abbrev all_users : UserFilter
all_users = record {
  types = [];
  name_prefix = codes "a";
  location_prefix = [];
  allow_defs = [];
  inserts = [];
}

-- of two skills, the user filter lets one through
one_user : length (list_user_entries all_users both) ≡ 1
unfolding prompts
one_user = refl

list_prompt_index_records_lem_example :
    (is_sorted record_key (list_prompt_index_records only_fs both) ≡ true)
    × (length (keep (λ r. r.name == codes "a") (list_prompt_index_records only_fs both))
        ≡ count (prompt_match only_fs) (λ k e. e.idx.name == codes "a") both.by_key)
list_prompt_index_records_lem_example =
    list_prompt_index_records_lem only_fs both (λ r. r.name == codes "a")
