-- ===== src/Session/State.antt =====
-- The session object, the catalog as a session sees it, and the operations that hold the lock
-- throughout.
use agentskills_go.Base.{
  ℕ, ◌+◌, ◌%◌, ◌^◌, Bytes, Bool, true, false, ◌&&◌, ◌||◌, not, List, [], ◌∷◌, Option, none, some,
  is_some, ℤ, pos, int_ltb, length, keep, contains, if◌then◌else◌,
}
use agentskills_go.Spec.{
  ProviderSkillKey, SkillHandle, ProviderSkillIndexRecord, Result, Ctx, key_eq,
}

-- What the `Catalog` interface gives a session, over the catalog's state `C`. `ensure_body` may
-- change that state, since it caches bodies.
pub record Catalog (C : Type 0) : Type 0 where
  pub resolve_handle : C → SkillHandle → Option ProviderSkillKey
  pub handle_for_key : C → ProviderSkillKey → Option SkillHandle
  pub ensure_body : Ctx → C → ProviderSkillKey → C × Result Bytes
  pub get_index : C → ProviderSkillKey → Option ProviderSkillIndexRecord

pub record SessionConfig : Type 0 where
  pub id : Bytes
  pub max_active_per_session : ℤ

pub record Session : Type 0 where
  pub id : Bytes
  pub max_active : ℤ
  pub active_order : List ProviderSkillKey
  pub active_set : List ProviderSkillKey
  pub state_version : ℕ
  pub closed : Bool

unfoldable pub new_session : SessionConfig → Session
new_session cfg = record {
  id = cfg.id;
  max_active = cfg.max_active_per_session;
  active_order = [];
  active_set = [];
  state_version = 0;
  closed = false;
}

-- `stateVersion++` on a `uint64`
unfoldable pub next_version : ℕ → ℕ
next_version v = (v + 1) % 2 ^ 64

abbrev pub is_empty {ℓ} : {A : Type ℓ} → List A → Bool
is_empty [] = true
is_empty (x ∷ xs) = false

-- whether some key of the list is in the set
abbrev pub meets : List ProviderSkillKey → List ProviderSkillKey → Bool
meets [] set = false
meets (k ∷ ks) set = contains k set || meets ks set

-- the keys that are not in the list
abbrev pub without : List ProviderSkillKey → List ProviderSkillKey → List ProviderSkillKey
without rm = keep (λ k. not (contains k rm))

-- `s.maxActive > 0 && len(nextOrder) > s.maxActive`
unfoldable pub too_many : ℤ → List ProviderSkillKey → Bool
too_many max_active order = int_ltb (pos 0) max_active && int_ltb max_active (pos (length order))

unfoldable pub is_active : Session → ProviderSkillKey → Bool
is_active s k = contains k s.active_set

unfoldable pub prune_keys : List ProviderSkillKey → Session → Session
prune_keys keys s =
    if is_empty keys
    then s
    else if s.closed
    then s
    else if not (meets keys s.active_set)
    then s
    else (record s {
      active_set = without keys s.active_set;
      active_order = without keys s.active_order;
      state_version = next_version s.state_version;
    })

unfoldable pub prune_key : ProviderSkillKey → Session → Session
prune_key k s = if s.closed then s else if not (contains k s.active_set) then s else (record s {
  active_set = without (k ∷ []) s.active_set;
  active_order = without (k ∷ []) s.active_order;
  state_version = next_version s.state_version;
})

module _ {C : Type 0} (cat : Catalog C) (c : C) where
  unfoldable pub has_handle : ProviderSkillKey → Bool
  has_handle k = is_some (cat.handle_for_key c k)

  -- the handles of the keys that still have one, in order
  unfoldable pub handles_of : List ProviderSkillKey → List SkillHandle
  handles_of [] = []
  handles_of (k ∷ ks) =
      let rest = handles_of ks in elim (cat.handle_for_key c k) [ none ↦ rest | some h ↦ h ∷ rest ]

  unfoldable pub missing_of : List ProviderSkillKey → List ProviderSkillKey
  missing_of = keep (λ k. not (has_handle k))

  -- `activeHandlesLocked`: never an error; drops the keys that the catalog no longer has
  unfoldable pub active_handles : Session → Session × List SkillHandle
  active_handles s =
      let missing = missing_of s.active_order in
      if is_empty missing then (s, handles_of s.active_order) else (
        record s {
          active_set = without missing s.active_set;
          active_order = without missing s.active_order;
          state_version = next_version s.state_version;
        },
        handles_of s.active_order,
      )
