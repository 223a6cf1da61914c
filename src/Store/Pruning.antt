-- ===== src/Store/Pruning.antt =====
-- `PruneSkill` on every session of the store.
use agentskills_go.Base.{
  Bytes, bytes_eq, true, false, List, [], ◌∷◌, Option, none, some, ◌==◌, ◌≡◌, ◌∙◌, refl, arith,
  contains, IsDistinct, Option-cases, inl, inr, lookup, map_update, lookup-map_update,
  if◌then◌else◌,
}
use agentskills_go.Session.Effects.{contains-prune_key, is_active-prune_key}
use agentskills_go.Session.State.{Session, is_active, prune_key}
use agentskills_go.Spec.{ProviderSkillKey, key_eq}
use agentskills_go.Store.Ops.{is_gone, prune_sessions, prune_skill}
use agentskills_go.Store.Recent.{ids}
use agentskills_go.Store.State.{Store, Item}
use agentskills_go.Store.Valid.{IsValid, prune_key-closed}

abbrev opt_map {ℓ} : {A : Type ℓ} → (A → A) → Option A → Option A
opt_map f none = none
opt_map f (some a) = some (f a)

prune_key_gone : (key : ProviderSkillKey) (s : Session) → s.closed ≡ true → prune_key key s ≡ s
unfolding prune_key
prune_key_gone key s h = ground arith

prune_one :
    (key : ProviderSkillKey) (i id : Bytes) (st : Store)
    → lookup id
        (if is_gone st i
          then st
          else record st { heap = map_update i (prune_key key) st.heap }).heap
      ≡ (if i == id then opt_map (prune_key key) (lookup id st.heap) else lookup id st.heap)
unfolding is_gone
prune_one key i id st = elim (Option-cases (lookup id st.heap)) [
  | inl miss ↦ ground (arith, lookup-map_update i id (prune_key key) st.heap, bytes_eq.beq_iff i id)
  | inr (s, hit) ↦ ground (
    arith,
    lookup-map_update i id (prune_key key) st.heap,
    bytes_eq.beq_iff i id,
    prune_key_gone key s,
  )
]

lookup-prune_sessions :
    (key : ProviderSkillKey) (l : List Item) (st : Store) (id : Bytes)
    → IsDistinct (ids l)
    → lookup id (prune_sessions key l st).heap ≡ (
        if contains id (ids l)
        then opt_map (prune_key key) (lookup id st.heap)
        else lookup id st.heap)
unfolding prune_sessions
lookup-prune_sessions key [] st id d = refl
lookup-prune_sessions key (it ∷ rest) st id d =
    let st' =
      if is_gone st it.s
      then st
      else record st { heap = map_update it.s (prune_key key) st.heap } in
    lookup-prune_sessions key rest st' id d.1
    ∙ ground (arith, prune_one key it.s id st, bytes_eq.beq_iff it.s id)

-- After `PruneSkill` on a valid store no open session object has the key active: it is neither in
-- the active order nor in the active set, which the tools consult.
pub prune_skill-inactive :
    (key : ProviderSkillKey) (st : Store) (id : Bytes) (s : Session)
    → IsValid st
    → lookup id (prune_skill key st).heap ≡ some s
    → s.closed ≡ false
    → (contains key s.active_order ≡ false) × (is_active s key ≡ false)
unfolding prune_skill is_gone
prune_skill-inactive key st id s v e alive = elim (Option-cases (lookup id st.heap)) [
  | inl miss ↦ absurd (ground (arith, lookup-prune_sessions key st.lru st id v.distinct))
  | inr (s', hit) ↦ (
    ground (
      arith,
      lookup-prune_sessions key st.lru st id v.distinct,
      v.live id,
      prune_key-closed key s',
      contains-prune_key key key s' (v.sound id s' hit),
      key_eq.beq_iff key key,
    ),
    ground (
      arith,
      lookup-prune_sessions key st.lru st id v.distinct,
      v.live id,
      prune_key-closed key s',
      is_active-prune_key key s',
    ),
  )
]
