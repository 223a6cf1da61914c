-- ===== src/Session/Follows.antt =====
-- What an operation of another goroutine may do to a session, and that the operations do no more.
use agentskills_go.Base.{
  ℕ, ◌+◌, ◌%◌, ◌^◌, ◌<◌, false, List, ◌≡◌, refl, ap, arith, ◌⊎◌, inl, inr, IsDistinct,
}
use agentskills_go.Session.Activate.{Interference, activated}
use agentskills_go.Session.Consistent.{
  IsConsistent, prune_key-IsConsistent, prune_keys-IsConsistent, active_handles-IsConsistent,
  unload_all-IsConsistent, unload_keys-IsConsistent, activated-IsConsistent,
}
use agentskills_go.Session.State.{
  too_many, Catalog, Session, next_version, prune_keys, prune_key, active_handles,
}
use agentskills_go.Session.Tools.{unload_all, unload_keys}
use agentskills_go.Spec.{ProviderSkillKey, key_eq}

-- `t` is `s` after some changes of its active list, each of which counted the version up.
pub record Follows (s t : Session) : Type 0 where
  pub bound : t.max_active ≡ s.max_active
  pub valid : IsConsistent t
  pub changes : ℕ
  pub few : changes < 2 ^ 62
  pub version : t.state_version ≡ (s.state_version + changes) % 2 ^ 64
  pub unchanged : changes ≡ 0 → (t.active_order ≡ s.active_order) × (t.active_set ≡ s.active_set)

pub record Rely {C : Type 0} (others : Interference C) : Type 0 where
  pub before : (st : Session × C) → IsConsistent st.0 → Follows st.0 (others.before st).0
  pub mid : (st : Session × C) → IsConsistent st.0 → Follows st.0 (others.mid st).0
  pub late : (st : Session × C) → IsConsistent st.0 → Follows st.0 (others.late st).0

-- An unchanged version after two stretches means an unchanged active list.
pub Follows-same :
    {s t u : Session}
    → IsConsistent s
    → (f : Follows s t) → (g : Follows t u) → u.state_version ≡ s.state_version
    → (u.active_order ≡ s.active_order) × (u.active_set ≡ s.active_set)
Follows-same {s} {t} {u} v f g e =
    let none_f : f.changes ≡ 0 = omega (arith, v.word, f.few, g.few, f.version, g.version) in
    let none_g : g.changes ≡ 0 = omega (arith, v.word, f.few, g.few, f.version, g.version) in
    let (fo, fs) = f.unchanged none_f in let (go, gs) = g.unchanged none_g in (cc, cc)

-- An operation that leaves the session alone, or counts its version up once.
abbrev OneStep : Session → Session → Type 0
OneStep s t =
    (t ≡ s) ⊎ ((t.max_active ≡ s.max_active) × (t.state_version ≡ next_version s.state_version))

OneStep-Follows : {s t : Session} → IsConsistent s → IsConsistent t → OneStep s t → Follows s t
unfolding next_version
OneStep-Follows {s} {t} v w (inl e) = record {
  bound = cc;
  valid = w;
  changes = 0;
  few = omega arith;
  version = omega (arith, v.word, ap (λ (x : Session). x.state_version) e);
  unchanged = λ _. (cc, cc);
}
OneStep-Follows {s} {t} v w (inr (b, e)) = record {
  bound = b;
  valid = w;
  changes = 1;
  few = omega arith;
  version = e;
  unchanged = λ h. absurd (omega arith);
}

-- Stretches add up, as long as the changes do not reach a quarter of the version's range.
pub Follows_trans :
    {s t u : Session} (f : Follows s t) (g : Follows t u)
    → f.changes + g.changes < 2 ^ 62
    → Follows s u
Follows_trans f g few = record {
  bound = cc (f.bound, g.bound);
  valid = g.valid;
  changes = f.changes + g.changes;
  few = few;
  version = omega (arith, f.version, g.version);
  unchanged = λ h.
      let (fo, fs) = f.unchanged (omega arith) in
      let (go, gs) = g.unchanged (omega arith) in (cc, cc);
}

two_steps-Follows :
    {s t u : Session}
    → IsConsistent s
    → IsConsistent t
    → IsConsistent u
    → OneStep s t
    → OneStep t u
    → Follows s u
unfolding OneStep-Follows
two_steps-Follows v w x (inl e) n =
    let f = OneStep-Follows v w (inl e) in
    elim n [
      | inl d ↦ Follows_trans f (OneStep-Follows w x (inl d)) (omega arith)
      | inr d ↦ Follows_trans f (OneStep-Follows w x (inr d)) (omega arith)
    ]
two_steps-Follows v w x (inr e) n =
    let f = OneStep-Follows v w (inr e) in
    elim n [
      | inl d ↦ Follows_trans f (OneStep-Follows w x (inl d)) (omega arith)
      | inr d ↦ Follows_trans f (OneStep-Follows w x (inr d)) (omega arith)
    ]

module _ {s : Session} (v : IsConsistent s) where
  pub prune_key-Follows : (k : ProviderSkillKey) → Follows s (prune_key k s)
  unfolding prune_key
  prune_key-Follows k = OneStep-Follows v (prune_key-IsConsistent k v) (ground arith)

  pub prune_keys-Follows : (ks : List ProviderSkillKey) → Follows s (prune_keys ks s)
  unfolding prune_keys
  prune_keys-Follows ks = OneStep-Follows v (prune_keys-IsConsistent ks v) (ground arith)

module _ {C : Type 0} (cat : Catalog C) (c : C) {s : Session} (v : IsConsistent s) where
  active_handles-OneStep : (t : Session) → OneStep t (active_handles cat c t).0
  unfolding active_handles
  active_handles-OneStep t = ground arith

  pub active_handles-Follows : Follows s (active_handles cat c s).0
  active_handles-Follows =
      OneStep-Follows v (active_handles-IsConsistent cat c v) (active_handles-OneStep s)

  pub unload_all-Follows : Follows s (unload_all cat c s).0
  unfolding unload_all
  unload_all-Follows =
      let w = unload_all-IsConsistent v in
      two_steps-Follows v w (active_handles-IsConsistent cat c w) (inr (refl, refl))
        (active_handles-OneStep _)

  pub unload_keys-Follows : (rm : List ProviderSkillKey) → Follows s (unload_keys cat rm c s).0
  unfolding unload_keys
  unload_keys-Follows rm =
      let w = unload_keys-IsConsistent rm v in
      two_steps-Follows v w (active_handles-IsConsistent cat c w) (inr (refl, refl))
        (active_handles-OneStep _)

  pub activated-Follows :
      (order : List ProviderSkillKey)
      → IsDistinct order
      → too_many s.max_active order ≡ false
      → Follows s (active_handles cat c (activated order s)).0
  activated-Follows order d within =
      let w = activated-IsConsistent order s d within in
      two_steps-Follows v w (active_handles-IsConsistent cat c w) (inr (refl, refl))
        (active_handles-OneStep _)
