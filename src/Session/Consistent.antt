-- ===== src/Session/Consistent.antt =====
-- The invariant of a session, and that the operations under the lock keep it.
use agentskills_go.Base.{
  ℕ, ◌^◌, ◌≤◌, ◌<◌, Bool, false, ◌&&◌, not, List, [], ◌∷◌, ◌≡◌, refl, ◌∙◌, sym, ap, ℤ, pos, negsuc,
  arith, length, length-keep-le, keep, contains, IsDistinct, contains-keep, keep-IsDistinct,
  contains-set_of,
}
use agentskills_go.Session.Activate.{activated}
use agentskills_go.Session.State.{
  Catalog, Session, SessionConfig, new_session, next_version, too_many, without, prune_keys,
  prune_key, missing_of, active_handles,
}
use agentskills_go.Spec.{ProviderSkillKey, key_eq}

-- The order has no repetition, the set has the same keys, and the bound of the session holds.
pub record IsConsistent (s : Session) : Type 0 where
  pub distinct : IsDistinct s.active_order
  pub same : (k : ProviderSkillKey) → contains k s.active_set ≡ contains k s.active_order
  pub within : too_many s.max_active s.active_order ≡ false
  pub word : s.state_version < 2 ^ 64

pub next_version-lt : (v : ℕ) → next_version v < 2 ^ 64
unfolding next_version
next_version-lt v = omega arith

-- Dropping keys never breaks the bound.
pub too_many-le :
    (m : ℤ) (xs ys : List ProviderSkillKey)
    → length ys ≤ length xs
    → too_many m xs ≡ false
    → too_many m ys ≡ false
unfolding too_many
too_many-le (pos m) xs ys h e = ground arith
too_many-le (negsuc m) xs ys h e = refl

-- The set and the order are cut down to the keys that pass a test.
pub restrict-IsConsistent :
    (p q : ProviderSkillKey → Bool) {s : Session}
    → IsConsistent s
    → ((k : ProviderSkillKey)
        → (contains k s.active_set && p k) ≡ (contains k s.active_order && q k))
    → IsConsistent (record s {
      active_set = keep p s.active_set;
      active_order = keep q s.active_order;
      state_version = next_version s.state_version;
    })
restrict-IsConsistent p q {s} v agree = record {
  distinct = keep-IsDistinct q s.active_order v.distinct;
  same = λ k. contains-keep p k s.active_set ∙ agree k ∙ sym (contains-keep q k s.active_order);
  within = too_many-le s.max_active s.active_order _ (length-keep-le q s.active_order) v.within;
  word = next_version-lt s.state_version;
}

without-IsConsistent :
    (rm : List ProviderSkillKey) {s : Session}
    → IsConsistent s
    → IsConsistent (record s {
      active_set = without rm s.active_set;
      active_order = without rm s.active_order;
      state_version = next_version s.state_version;
    })
without-IsConsistent rm {s} v =
    restrict-IsConsistent (λ k. not (contains k rm)) (λ k. not (contains k rm)) v
      (λ k. ap (λ b. b && not (contains k rm)) (v.same k))

pub new_session-IsConsistent : (cfg : SessionConfig) → IsConsistent (new_session cfg)
unfolding new_session too_many
new_session-IsConsistent cfg = record {
  distinct = tt;
  same = λ k. refl;
  within = none_within cfg.max_active_per_session;
  word = omega arith;
}
  where
    none_within : (m : ℤ) → too_many m [] ≡ false
    none_within (pos m) = ground arith
    none_within (negsuc m) = refl

pub prune_keys-IsConsistent :
    (keys : List ProviderSkillKey) {s : Session} → IsConsistent s → IsConsistent (prune_keys keys s)
unfolding prune_keys
prune_keys-IsConsistent keys {s} v = ground (arith, without-IsConsistent keys v)

pub prune_key-IsConsistent :
    (k : ProviderSkillKey) {s : Session} → IsConsistent s → IsConsistent (prune_key k s)
unfolding prune_key
prune_key-IsConsistent k {s} v = ground (arith, without-IsConsistent (k ∷ []) v)

-- What `toolUnload` writes, with and without `all`, and what the commit of `ActivateKeys` writes.
pub unload_all-IsConsistent :
    {s : Session}
    → IsConsistent s
    → IsConsistent (record s {
      active_set = [];
      active_order = [];
      state_version = next_version s.state_version;
    })
unload_all-IsConsistent {s} v = record {
  distinct = tt;
  same = λ k. refl;
  within = too_many-le s.max_active s.active_order [] (omega arith) v.within;
  word = next_version-lt s.state_version;
}

pub unload_keys-IsConsistent :
    (rm : List ProviderSkillKey) {s : Session}
    → IsConsistent s
    → IsConsistent (record s {
      active_set = without rm s.active_set;
      active_order =
          keep (λ k. not (contains k rm) && contains k (without rm s.active_set)) s.active_order;
      state_version = next_version s.state_version;
    })
unload_keys-IsConsistent rm {s} v =
    restrict-IsConsistent (λ k. not (contains k rm))
      (λ k. not (contains k rm) && contains k (without rm s.active_set)) v
      (λ k. ground (arith, v.same k, contains-keep (λ j. not (contains j rm)) k s.active_set))

pub activated-IsConsistent :
    (order : List ProviderSkillKey) (s : Session)
    → IsDistinct order
    → too_many s.max_active order ≡ false
    → IsConsistent (activated order s)
activated-IsConsistent order s d within = record {
  distinct = d;
  same = λ k. contains-set_of k order;
  within = within;
  word = next_version-lt s.state_version;
}

module _ {C : Type 0} (cat : Catalog C) (c : C) where
  pub active_handles-IsConsistent :
      {s : Session} → IsConsistent s → IsConsistent (active_handles cat c s).0
  unfolding active_handles
  active_handles-IsConsistent {s} v =
      ground (arith, without-IsConsistent (missing_of cat c s.active_order) v)
