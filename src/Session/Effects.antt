-- ===== src/Session/Effects.antt =====
-- What the operations change in the active list, and what the tools need of it.
use agentskills_go.Base.{
  true, false, ◌&&◌, not, List, [], ◌∷◌, ◌≡◌, refl, arith, contains, length, keep, contains-keep,
  ◌==◌,
}
use agentskills_go.Session.Consistent.{IsConsistent}
use agentskills_go.Session.State.{
  Catalog, Session, next_version, is_empty, without, meets, is_active, prune_key, prune_keys,
  has_handle, handles_of, missing_of, active_handles,
}
use agentskills_go.Session.Tools.{unload_keys}
use agentskills_go.Spec.{ProviderSkillKey, key_eq}

-- After `pruneKey` on an open session the key is not active, and every other key is as it was.
pub contains-prune_key :
    (k j : ProviderSkillKey) (s : Session)
    → IsConsistent s
    → s.closed ≡ false
    → contains j (prune_key k s).active_order ≡ (contains j s.active_order && not (k == j))
unfolding prune_key
contains-prune_key k j s v alive = ground (
  arith,
  contains-keep (λ i. not (contains i (k ∷ []))) j s.active_order,
  key_eq.beq_iff k j,
  v.same k,
)

-- Neither does the set that the tools consult have the key.
pub is_active-prune_key :
    (k : ProviderSkillKey) (s : Session) → s.closed ≡ false → is_active (prune_key k s) k ≡ false
unfolding prune_key is_active
is_active-prune_key k s alive =
    ground
      (arith, contains-keep (λ i. not (contains i (k ∷ []))) k s.active_set, key_eq.beq_iff k k)

meets-false :
    (ks set : List ProviderSkillKey) (j : ProviderSkillKey)
    → meets ks set ≡ false
    → contains j ks ≡ true
    → contains j set ≡ false
meets-false [] set j h m = cc
meets-false (k ∷ ks) set j h m = ground (arith, meets-false ks set j, key_eq.beq_iff k j)

-- After `pruneKeys` on an open session none of the keys is active, and every other is as it was.
pub contains-prune_keys :
    (ks : List ProviderSkillKey) (j : ProviderSkillKey) (s : Session)
    → IsConsistent s
    → s.closed ≡ false
    → contains j (prune_keys ks s).active_order ≡ (contains j s.active_order && not (contains j ks))
unfolding prune_keys
contains-prune_keys [] j s v alive = ground arith
contains-prune_keys (k ∷ ks) j s v alive = ground (
  arith,
  contains-keep (λ i. not (contains i (k ∷ ks))) j s.active_order,
  meets-false (k ∷ ks) s.active_set j,
  v.same j,
)

is_empty-contains :
    (j : ProviderSkillKey) (ks : List ProviderSkillKey) → contains j ks ≡ true → is_empty ks ≡ false
is_empty-contains j [] h = cc
is_empty-contains j (k ∷ ks) h = refl

module _ {C : Type 0} (cat : Catalog C) (c : C) where
  contains-missing_of :
      (j : ProviderSkillKey) (ks : List ProviderSkillKey)
      → contains j (missing_of cat c ks) ≡ (contains j ks && not (has_handle cat c j))
  unfolding missing_of
  contains-missing_of j ks = contains-keep (λ k. not (has_handle cat c k)) j ks

  -- `activeHandlesLocked` leaves exactly the keys that the catalog still has.
  pub contains-active_handles :
      (j : ProviderSkillKey) (s : Session)
      → contains j (active_handles cat c s).0.active_order
        ≡ (contains j s.active_order && has_handle cat c j)
  unfolding active_handles
  contains-active_handles j s =
      let missing = missing_of cat c s.active_order in
      ground (
        arith,
        contains-missing_of j s.active_order,
        is_empty-contains j missing,
        contains-keep (λ k. not (contains k missing)) j s.active_order,
      )

  pub length-handles_of :
      (ks : List ProviderSkillKey)
      → length (handles_of cat c ks) ≡ length (keep (has_handle cat c) ks)
  unfolding handles_of has_handle
  length-handles_of [] = refl
  length-handles_of (k ∷ ks) = ground (arith, length-handles_of ks)

  -- On a consistent session a key is active after the locked part of `toolUnload` exactly if it
  -- was, was not named, and is in the catalog.
  pub contains-unload_keys :
      (rm : List ProviderSkillKey) (j : ProviderSkillKey) (s : Session)
      → IsConsistent s
      → contains j (unload_keys cat rm c s).0.active_order
        ≡ (contains j s.active_order && not (contains j rm) && has_handle cat c j)
  unfolding unload_keys
  contains-unload_keys rm j s v = ground (
    arith,
    contains-active_handles j (record s {
      active_set = without rm s.active_set;
      active_order =
          keep (λ k. not (contains k rm) && contains k (without rm s.active_set)) s.active_order;
      state_version = next_version s.state_version;
    }),
    contains-keep (λ k. not (contains k rm) && contains k (without rm s.active_set)) j
        s.active_order,
    contains-keep (λ k. not (contains k rm)) j s.active_set,
    v.same j,
  )
