-- ===== src/Tests/Sessions.antt =====
-- Sessions over the catalog of two skills.
use agentskills_go.Base.{
  Bool, pos, ℕ, Bytes, false, List, [], ◌∷◌, none, some, codes, ◌≡◌, refl, arith, nat_beq,
  Bool-cases, inl, inr, if◌then◌else◌,
}
use agentskills_go.Catalog.Interface.{catalog_ops, catalog_ops-CatalogLaws}
use agentskills_go.Catalog.State.{Catalog}
use agentskills_go.Session.Access.{Granted, tool_read-Granted, tool_run_script-Granted}
use agentskills_go.Session.Activate.{
  Interference, activate_keys, load_mode, collect_keys, activated, ensure_bodies,
}
use agentskills_go.Session.Consistent.{IsConsistent}
use agentskills_go.Session.Follows.{Follows, Rely, prune_key-Follows, prune_keys-Follows}
use agentskills_go.Session.Linear.{
  HasCommitted, activate_keys-Committed, activate_keys-IsConsistent,
}
use agentskills_go.Session.State.{
  Session, prune_key, prune_keys, active_handles, has_handle, handles_of, too_many,
}
use agentskills_go.Session.Success.{quiet, activate_keys_alone}
use agentskills_go.Session.Tools.{tool_read}
use agentskills_go.Spec.{
  SkillProvider, Error, ok, err, ProviderSkillKey, key_eq, ReadResourceArgs, RunScriptArgs,
  read_resource_encoding_text, load_mode_add,
}
use agentskills_go.Tests.Data.{program, key_a, key_b, handle_b, providers, both, fresh, with_a}

abbrev ops : agentskills_go.Session.State.Catalog Catalog
ops = catalog_ops providers

abbrev stay : Session → Session
stay s = s

fresh-IsConsistent : IsConsistent fresh
unfolding program
fresh-IsConsistent = record { distinct = tt; same = λ k. refl; within = refl; word = omega arith }

with_a-IsConsistent : IsConsistent with_a
unfolding program
with_a-IsConsistent = record {
  distinct = (refl, tt);
  same = λ k. refl;
  within = refl;
  word = omega arith;
}

-- another goroutine removes the skill `a` while the first round loads the bodies
abbrev pruned : ℕ → Interference Catalog
pruned n = record {
  before = λ st. st;
  mid = λ st. if nat_beq n 4 then (prune_key key_a st.0, st.1) else st;
  late = λ st. st;
}

same-Follows : {s : Session} → IsConsistent s → Follows s s
unfolding prune_keys
same-Follows v = prune_keys-Follows v []

pruned-Rely : (n : ℕ) → Rely (pruned n)
pruned-Rely n = record {
  before = λ st v. same-Follows v;
  mid = λ st v. elim (Bool-cases (nat_beq n 4)) [
    | inl e ↦ rw e (prune_key-Follows v key_a)
    | inr e ↦ rw e (same-Follows v)
  ];
  late = λ st v. same-Follows v;
}

-- the first round finds another version, the second commits
after_prune : activate_keys ops stay pruned none (key_b ∷ []) load_mode_add (with_a, both) ≡ (
  (
    record with_a { active_order = key_b ∷ []; active_set = key_b ∷ []; state_version = 3 },
    (activate_keys ops stay pruned none (key_b ∷ []) load_mode_add (with_a, both)).0.1,
  ),
  ok (handle_b ∷ []),
)
unfolding program
after_prune = refl

activate_keys-Committed_example :
    (replace : Bool) × (req : List ProviderSkillKey) × (load_mode load_mode_add ≡ some replace)
    × (collect_keys ops both [] (key_b ∷ []) ≡ ok req)
    × HasCommitted ops pruned none replace req 5
        (with_a, both)
        (activate_keys ops stay pruned none (key_b ∷ []) load_mode_add (with_a, both)).0
        (handle_b ∷ [])
unfolding program
activate_keys-Committed_example =
    activate_keys-Committed ops pruned pruned-Rely stay none (key_b ∷ []) load_mode_add with_a both
      (activate_keys ops stay pruned none (key_b ∷ []) load_mode_add (with_a, both)).0
      (handle_b ∷ []) with_a-IsConsistent refl

activate_keys-IsConsistent_example :
    IsConsistent (activate_keys ops stay pruned none (key_b ∷ []) load_mode_add (with_a, both)).0.0
activate_keys-IsConsistent_example =
    activate_keys-IsConsistent ops pruned pruned-Rely stay none (key_b ∷ []) load_mode_add with_a
      both with_a-IsConsistent with_a-IsConsistent

activate_keys_alone_example :
    activate_keys ops stay quiet none (key_b ∷ []) load_mode_add (with_a, both) ≡ (
      (activated (key_a ∷ key_b ∷ []) with_a, (ensure_bodies ops none both (key_a ∷ key_b ∷ [])).0),
      ok (handles_of ops both (key_a ∷ key_b ∷ [])),
    )
unfolding program
activate_keys_alone_example =
    activate_keys_alone ops (catalog_ops-CatalogLaws providers) stay (key_b ∷ []) load_mode_add
      with_a both false (key_b ∷ []) (key_a ∷ key_b ∷ []) refl refl (λ e. absurd (ground arith))
      refl refl refl refl refl

abbrev read_args : ReadResourceArgs
read_args = record {
  skill_name = codes "a";
  skill_location = codes "/a";
  resource_location = codes "notes";
  encoding = [];
}

abbrev run_args : RunScriptArgs
run_args = record {
  skill_name = codes "a";
  skill_location = codes "/a";
  script_location = codes "run.sh";
  args = [];
  env = [];
  work_dir = [];
}

read_inactive :
    tool_read ops providers stay none read_args both fresh ≡ (fresh, err Error.skill_not_active)
unfolding program
read_inactive = refl

tool_read-Granted_example :
    (k : ProviderSkillKey) × (p : SkillProvider Bytes) × (with_a ≡ with_a)
    × Granted ops both providers with_a (record { name = codes "a"; location = codes "/a" }) k p
    × (p.read_resource none k (codes "notes") read_resource_encoding_text ≡ ok (codes "notes"))
unfolding program
tool_read-Granted_example =
    tool_read-Granted ops both providers stay none read_args with_a with_a (codes "notes") refl

tool_run_script-Granted_example :
    (k : ProviderSkillKey) × (p : SkillProvider Bytes) × (with_a ≡ with_a)
    × Granted ops both providers with_a (record { name = codes "a"; location = codes "/a" }) k p
    × (p.run_script none k (codes "run.sh") [] [] []
        ≡ ok (record {
          location = codes "run.sh";
          exit_code = pos 0;
          stdout = codes "done";
          stderr = [];
          timed_out = false;
          duration_ms = pos 1;
        }))
unfolding program
tool_run_script-Granted_example =
    tool_run_script-Granted ops both providers stay none run_args with_a with_a
      (record {
        location = codes "run.sh";
        exit_code = pos 0;
        stdout = codes "done";
        stderr = [];
        timed_out = false;
        duration_ms = pos 1;
      })
      refl
