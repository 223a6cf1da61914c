-- ===== src/Tests/Runtimes.antt =====
-- A runtime with two skills and a session.
use agentskills_go.Base.{false, bytes_eq, [], ◌∷◌, none, some, codes, contains, pos, ◌≡◌, refl}
use agentskills_go.Catalog.Filters.{
  prompt_match, user_match, prefix_allows, some_insert, insert_matches,
}
use agentskills_go.Catalog.Listing.{list_user_entries, user_entries}
use agentskills_go.Catalog.Ops.{resolve_def, get_index}
use agentskills_go.Catalog.State.{skill_record_from}
use agentskills_go.Runtime.Calls.{
  add_skill, remove_skill, close_session, list_skills, render_skill, new_runtime_session,
  resolve_defs, render_out, keys_in_session, records_of,
}
use agentskills_go.Runtime.Filters.{
  SkillListFilter, normalize_types, normalize_allow, normalize_insert_filter, normalize_activity,
  normalize_skill_list_filter, to_catalog_user_filter,
}
use agentskills_go.Runtime.Removal.{remove_skill-gone, close_session-get}
use agentskills_go.Runtime.State.{Runtime, has_outer_space, is_incomplete}
use agentskills_go.Runtime.ToolCalls.{new_session_registry, on_session, call_unload, call_load}
use agentskills_go.Session.State.{is_active}
use agentskills_go.Session.Success.{quiet}
use agentskills_go.Spec.{
  Error, ok, err, ProviderSkillKey, SkillRecord, key_eq, LoadArgs, UnloadArgs,
}
use agentskills_go.Store.Ops.{get}
use agentskills_go.Tests.Catalogs.{both-IsLinked}
use agentskills_go.Tests.Data.{
  program, digest, providers, both, def_a, def_b, key_a, index_of, handle_a, handle_b,
}
use agentskills_go.Tests.Stores.{started, started-IsValid, left, id_s, unchanged}
use agentskills_go.Text.Order.{pair_less, insert_by, sort_by}

calls : Unit {0}
unfolding program prompt_match user_match prefix_allows some_insert insert_matches list_user_entries
    user_entries add_skill remove_skill close_session list_skills render_skill new_runtime_session
    resolve_defs render_out keys_in_session new_session_registry on_session call_unload call_load
    records_of normalize_types normalize_allow normalize_insert_filter normalize_activity
    normalize_skill_list_filter to_catalog_user_filter has_outer_space is_incomplete pair_less
    insert_by sort_by
calls = tt

abbrev rt : Runtime
rt = record { catalog = both; sessions = started }

abbrev record_a : SkillRecord
record_a = skill_record_from def_a (index_of key_a)

removed : (remove_skill digest providers none def_a rt).1 ≡ ok record_a
unfolding calls
removed = refl

spaced :
    (add_skill digest providers none (record def_a { name = codes " a" }) rt).1
    ≡ err Error.invalid_argument
unfolding calls
spaced = refl

abbrev of_session : SkillListFilter
of_session = record {
  types = [];
  name_prefix = [];
  location_prefix = [];
  allow_skills = [];
  inserts = [];
  session_id = id_s;
  activity = codes " active ";
}

listed :
    (list_skills providers 7 8 (λ s. s) unchanged none (some of_session) rt).1 ≡ ok (record_a ∷ [])
unfolding calls
listed = refl

created :
    (new_runtime_session providers 7 8
      (ok (codes "t"))
      quiet
      unchanged
      none
      (pos 0)
      (def_b ∷ [])
      rt).1
    ≡ ok (codes "t", def_b ∷ [])
unfolding calls
created = refl

repeated :
    (new_runtime_session providers 7 8
      (ok (codes "t"))
      quiet
      unchanged
      none
      (pos 0)
      (def_b ∷ def_b ∷ [])
      rt).1
    ≡ err Error.invalid_argument
unfolding calls
repeated = refl

remove_skill-gone_example :
    (key : ProviderSkillKey) × (resolve_def both def_a ≡ some key)
    × (resolve_def (remove_skill digest providers none def_a rt).0.catalog def_a ≡ none)
    × (get_index (remove_skill digest providers none def_a rt).0.catalog key ≡ none)
    × (contains key left.active_order ≡ false)
    × (is_active left key ≡ false)
unfolding calls
remove_skill-gone_example =
    remove_skill-gone digest providers def_a rt (remove_skill digest providers none def_a rt).0
      record_a id_s left both-IsLinked started-IsValid refl refl refl

close_session-get_example : (get 7 id_s (close_session none id_s rt).0.sessions).1 ≡ none
unfolding calls
close_session-get_example = close_session-get 7 id_s rt refl

-- The tools of the session load the skill `b`, unload the skill `a`, and see a closed session.
abbrev load_b : LoadArgs
load_b = record { skills = handle_b ∷ []; mode = codes "add" }

abbrev unload_a : UnloadArgs
unload_a = record { skills = handle_a ∷ []; all = false }

loaded_b :
    (call_load providers 7 8 quiet unchanged unchanged none id_s load_b rt).1
    ≡ ok (handle_a ∷ handle_b ∷ [])
unfolding calls
loaded_b = refl

unloaded_a : (call_unload providers 7 unchanged none id_s unload_a rt).1 ≡ ok []
unfolding calls
unloaded_a = refl

unloaded_closed :
    (call_unload providers 7 unchanged none id_s unload_a (close_session none id_s rt).0).1
    ≡ err Error.session_not_found
unfolding calls
unloaded_closed = refl

not_registered :
    (new_session_registry 7 none id_s (close_session none id_s rt).0).1
    ≡ err Error.session_not_found
unfolding calls
not_registered = refl
