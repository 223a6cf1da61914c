-- ===== src/Tests/Data.antt =====
-- Two skills of a provider in memory, and the catalogs that hold them.
use agentskills_go.Base.{
  Bytes, false, [], ◌∷◌, none, some, codes, ◌==◌, bytes_eq, if◌then◌else◌, ◌≡◌, refl, drop, pos,
}
use agentskills_go.Artifact.Body.{
  trimmed_set, unique_sorted_strings, declare_arguments, render_passes, render_skill_body,
}
use agentskills_go.Artifact.Insert.{normalize_skill_insert}
use agentskills_go.Artifact.Names.{
  is_ident_start, is_ident_part, is_valid_skill_argument_name, scan_identifier,
}
use agentskills_go.Artifact.Placeholders.{
  dollar_piece, match_brace, brace_piece, render_pieces, render_dollar_placeholders,
  render_double_brace_placeholders,
}
use agentskills_go.Catalog.Body.{
  publish, finish_body_load, load_body, load_as, ensure_rounds, ensure_body,
}
use agentskills_go.Catalog.Names.{
  index_handles, short_hash_def, hashed_name, first_pass, second_pass, rename_entries,
  recompute_llm_names,
}
use agentskills_go.Catalog.Ops.{
  resolve_def, get_index, norm_handle, resolve_handle, handle_for_key, check_index, insert_entry,
  add, remove,
}
use agentskills_go.Catalog.State.{Catalog, new_catalog, skill_record_from}
use agentskills_go.Session.Activate.{
  next_order, load_mode, is_known, collect_keys, ensure_bodies, all_known, active_keys, commit,
  round_from, retry_loop, activate_keys,
}
use agentskills_go.Session.State.{
  Session, new_session, next_version, too_many, is_active, prune_keys, prune_key, has_handle,
  handles_of, missing_of, active_handles,
}
use agentskills_go.Session.Tools.{
  resolve_keys, tool_load, resolve_set, unload_all, unload_keys, tool_unload, active_provider,
  tool_read, tool_run_script,
}
use agentskills_go.Spec.{
  Error, ok, err, ProviderSkillKey, SkillDef, SkillHandle, ProviderSkillIndexRecord, SkillProvider,
  ProviderResolver,
}
use agentskills_go.Store.Ops.{
  session_bound, is_gone, move_to_front, use_session, get, touch, delete, prune_sessions,
  prune_skill, push_session, register, put_session, activate_session, new_session_in,
}
use agentskills_go.Store.State.{
  new_store, delete_elem, evict_rounds, evict_over_limit, is_fresh, expire_walk, evict_expired,
}
use agentskills_go.Text.{
  space_width, last_space_width, strip, trim_left_space, trim_right_space, trim_space, to_lower,
}

-- what a run of the program unfolds
unfoldable pub program : Unit {0}
unfolding trimmed_set unique_sorted_strings declare_arguments render_passes render_skill_body
    normalize_skill_insert is_ident_start is_ident_part is_valid_skill_argument_name scan_identifier
    dollar_piece match_brace brace_piece render_pieces render_dollar_placeholders
    render_double_brace_placeholders publish finish_body_load load_body load_as ensure_rounds
    ensure_body index_handles short_hash_def hashed_name first_pass second_pass rename_entries
    recompute_llm_names resolve_def get_index norm_handle resolve_handle handle_for_key check_index
    insert_entry add remove new_catalog skill_record_from next_order load_mode is_known collect_keys
    ensure_bodies all_known active_keys commit round_from retry_loop activate_keys new_session
    next_version too_many is_active prune_keys prune_key has_handle handles_of missing_of
    active_handles resolve_keys tool_load resolve_set unload_all unload_keys tool_unload
    active_provider tool_read tool_run_script session_bound is_gone move_to_front use_session get
    touch delete prune_sessions prune_skill push_session register put_session activate_session
    new_session_in new_store delete_elem evict_rounds evict_over_limit is_fresh expire_walk
    evict_expired space_width last_space_width strip trim_left_space trim_right_space trim_space
    to_lower
program = tt

-- not SHA-256: the name itself
abbrev pub digest : Bytes → Bytes
digest s = drop 3 s

abbrev pub key_a : ProviderSkillKey
key_a = record { type = codes "fs"; name = codes "a"; location = codes "/a" }

abbrev pub key_b : ProviderSkillKey
key_b = record { type = codes "fs"; name = codes "b"; location = codes "/b" }

abbrev pub def_a : SkillDef
def_a = record { type = codes "fs"; name = codes "a"; location = codes "/a" }

abbrev pub def_b : SkillDef
def_b = record { type = codes "fs"; name = codes "b"; location = codes "/b" }

abbrev pub handle_a : SkillHandle
handle_a = record { name = codes "a"; location = codes "/a" }

abbrev pub handle_b : SkillHandle
handle_b = record { name = codes "b"; location = codes "/b" }

abbrev pub index_of : ProviderSkillKey → ProviderSkillIndexRecord
index_of k = record {
  key = k;
  name = k.name;
  description = codes "a skill";
  display_name = [];
  insert = codes "instructions";
  arguments = [];
  tags = [];
  resources = record {
    has_resources = false;
    total_count = 0;
    locations = [];
    more_locations = false;
  };
  raw_frontmatter = none;
  warnings = [];
  digest = [];
  skill_body = [];
}

abbrev pub provider : SkillProvider Bytes
provider = record {
  type = codes "fs";
  index = λ ctx def.
      ok (index_of (record { type = def.type; name = def.name; location = def.location }));
  load_body = λ ctx k. ok (codes "body of ");
  read_resource = λ ctx k location encoding. ok location;
  run_script = λ ctx k location args env dir. ok (record {
    location = location;
    exit_code = pos 0;
    stdout = codes "done";
    stderr = [];
    timed_out = false;
    duration_ms = pos 1;
  });
}

abbrev pub providers : ProviderResolver Bytes
providers type = if type == codes "fs" then some provider else none

abbrev pub one : Catalog
one = (insert_entry digest def_a (index_of key_a) new_catalog).0

-- the catalog of both skills
abbrev pub both : Catalog
both = (insert_entry digest def_b (index_of key_b) one).0

both_handles :
    (handle_for_key both key_a ≡ some handle_a) × (resolve_handle both handle_b ≡ some key_b)
unfolding program
both_handles = (refl, refl)

add_again : (add digest providers none def_a both).1 ≡ err Error.skill_already_exists
unfolding program
add_again = refl

abbrev pub fresh : Session
fresh = record {
  id = codes "s";
  max_active = pos 2;
  active_order = [];
  active_set = [];
  state_version = 0;
  closed = false;
}

abbrev pub with_a : Session
with_a = record fresh { active_order = key_a ∷ []; active_set = key_a ∷ []; state_version = 1 }
