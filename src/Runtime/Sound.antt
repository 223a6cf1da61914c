-- ===== src/Runtime/Sound.antt =====
-- An invariant of the runtime over all histories of calls.
use agentskills_go.Base.{
  ℕ, ◌+◌, Bytes, bytes_eq, List, [], ◌∷◌, Option, none, some, lookup, ◌≡◌, refl, sym, subst, arith,
  inl, inr, Option-cases,
}
use agentskills_go.Catalog.Body.{Around, ensure_body}
use agentskills_go.Catalog.Changes.{IsLinked}
use agentskills_go.Catalog.Interface.{catalog_ops}
use agentskills_go.Catalog.Loading.{KeepsLinked, ensure_body-IsLinked}
use agentskills_go.Catalog.Listing.{list_prompt_index_records}
use agentskills_go.Catalog.State.{Catalog}
use agentskills_go.Runtime.Calls.{list_skills, keys_in_session}
use agentskills_go.Runtime.Filters.{SkillListFilter, normalize_skill_list_filter}
use agentskills_go.Runtime.Prompt.{
  SkillFilter, normalize_skills_prompt_filter, to_catalog_prompt_filter, record_keys, skills_prompt,
  prompt_sections, active_round, active_entries,
}
use agentskills_go.Runtime.State.{Runtime}
use agentskills_go.Session.Activate.{active_keys}
use agentskills_go.Session.Consistent.{IsConsistent, prune_keys-IsConsistent}
use agentskills_go.Session.State.{Session, Catalog as CatalogOps, prune_keys, missing_of}
use agentskills_go.Spec.{Ctx, Result-cases, ProviderSkillKey, ProviderResolver, key_eq}
use agentskills_go.Store.Ops.{get, touch}
use agentskills_go.Store.State.{Store}
use agentskills_go.Store.Valid.{IsValid, get-IsValid, touch-IsValid, put_session-IsValid}

-- The catalog's maps agree, and the store and its sessions are well formed.
pub record IsSound (rt : Runtime) : Type 0 where
  pub linked : IsLinked rt.catalog
  pub valid : IsValid rt.sessions

-- What the other goroutines do to a session while a call does not hold its lock, and to the store while
-- a call does not hold the store's: sessions stay consistent, and the store valid.
pub record KeepsSound (between : Session → Session) (meanwhile : Store → Store) : Type 0 where
  pub consistent : (s : Session) → IsConsistent s → IsConsistent (between s)
  pub valid : (st : Store) → IsValid st → IsValid (meanwhile st)

module _ {C : Type 0} (cat : CatalogOps C) (c : C) (s : Session) (between : Session → Session) where
  active_keys-keeps :
      (P : Session → Type 0)
      → P s
      → P (prune_keys (missing_of cat c s.active_order) (between s))
      → P (active_keys cat (λ x. x) between none c s).0
  unfolding active_keys
  active_keys-keeps P p q = ground (arith, p, q)

  active_keys-IsConsistent :
      IsConsistent s
      → IsConsistent (between s)
      → IsConsistent (active_keys cat (λ x. x) between none c s).0
  active_keys-IsConsistent v w =
      active_keys-keeps IsConsistent v (prune_keys-IsConsistent (missing_of cat c s.active_order) w)

module _ {Out : Type 0} (providers : ProviderResolver Out) where
  -- `P` stands for being linked.
  module _ (P : Catalog → Type 0) (around : ℕ → ℕ → Around)
      (ensure : (j : ℕ) (k : ProviderSkillKey) (c : Catalog)
        → P c
        → P (ensure_body providers (around j) none k c).0) where
    active_round-keeps :
        (j : ℕ) (filtered : List ProviderSkillKey) (k : ProviderSkillKey) (c : Catalog)
        → P c
        → P (active_round providers (around j) filtered k c).0
    unfolding active_round
    active_round-keeps j filtered k c v = ground (arith, v, ensure j k c v)

    active_entries-keeps :
        (n : ℕ) (filtered ks : List ProviderSkillKey) (c : Catalog)
        → P c
        → P (active_entries providers around n filtered ks c).0
    unfolding active_entries
    active_entries-keeps n filtered [] c v = v
    active_entries-keeps n filtered (k ∷ ks) c v =
        let next = (active_round providers (around n) filtered k c).0 in
        let w = active_round-keeps n filtered k c v in
        ground (arith, w, active_entries-keeps (n + 1) filtered ks next w)

    prompt_sections-keeps :
        (cfg : SkillFilter) (keys : Option (List ProviderSkillKey)) (c : Catalog)
        → P c
        → P (prompt_sections providers around cfg keys c).0
    unfolding prompt_sections
    prompt_sections-keeps cfg none c v = ground (arith, v)
    prompt_sections-keeps cfg (some keys) c v =
        let records = list_prompt_index_records (to_catalog_prompt_filter cfg) c in
        ground (arith, v, active_entries-keeps 0 (record_keys records) keys c v)

  keys_in_session-IsValid :
      (later : ℕ) (between : Session → Session) (meanwhile : Store → Store) (id : Bytes)
      (c : Catalog) (st : Store)
      → KeepsSound between meanwhile
      → IsValid st
      → IsValid (keys_in_session providers later between meanwhile id c st).0
  unfolding keys_in_session
  keys_in_session-IsValid later between meanwhile id c st k v =
      let cat = catalog_ops providers in
      let st' = touch later id st in
      let w = touch-IsValid later id st v in
      elim (Option-cases (lookup id st'.heap)) [
        | inl miss ↦ rw (miss, keys_in_session) (k.valid st' w)
        | inr (s, hit) ↦
            let u = w.sound id s hit in
            rw (hit, keys_in_session)
              (put_session-IsValid id (active_keys cat (λ x. x) between none c s).0 (meanwhile st')
                (active_keys-IsConsistent cat c s between u (k.consistent s u)) (k.valid st' w))
      ]

  list_skills-catalog :
      (now later : ℕ) (between : Session → Session) (meanwhile : Store → Store) (ctx : Ctx)
      (filter : Option SkillListFilter) (rt : Runtime)
      → (list_skills providers now later between meanwhile ctx filter rt).0.catalog ≡ rt.catalog
  unfolding list_skills
  list_skills-catalog now later between meanwhile (some e) filter rt = refl
  list_skills-catalog now later between meanwhile none filter rt = ground arith

  -- `P` stands for being valid.
  list_skills-keeps :
      (P : Store → Type 0) (now later : ℕ) (between : Session → Session) (meanwhile : Store → Store)
      (ctx : Ctx) (filter : Option SkillListFilter) (rt : Runtime)
      → P rt.sessions
      → ((id : Bytes) → P (get now id rt.sessions).0)
      → ((id : Bytes)
          → P
              (keys_in_session providers later between meanwhile id rt.catalog
                (get now id rt.sessions).0).0)
      → P (list_skills providers now later between meanwhile ctx filter rt).0.sessions
  unfolding list_skills
  list_skills-keeps P now later between meanwhile (some e) filter rt p q r = p
  list_skills-keeps P now later between meanwhile none filter rt p q r =
      let id = (normalize_skill_list_filter filter).session_id in ground (arith, p, q id, r id)

  pub list_skills-IsSound :
      (now later : ℕ) (between : Session → Session) (meanwhile : Store → Store) (ctx : Ctx)
      (filter : Option SkillListFilter) (rt : Runtime)
      → KeepsSound between meanwhile
      → IsSound rt
      → IsSound (list_skills providers now later between meanwhile ctx filter rt).0
  list_skills-IsSound now later between meanwhile ctx filter rt k i = record {
    linked =
        subst IsLinked (sym (list_skills-catalog now later between meanwhile ctx filter rt))
          i.linked;
    valid =
        list_skills-keeps IsValid now later between meanwhile ctx filter rt i.valid
          (λ id. get-IsValid now id rt.sessions i.valid)
          (λ id.
            keys_in_session-IsValid later between meanwhile id rt.catalog (get now id rt.sessions).0
              k (get-IsValid now id rt.sessions i.valid));
  }

  -- `P` stands for being linked, `Q` for being valid.
  skills_prompt-keeps :
      (P : Catalog → Type 0) (Q : Store → Type 0) (around : ℕ → ℕ → Around) (now later : ℕ)
      (between : Session → Session) (meanwhile : Store → Store) (ctx : Ctx)
      (filter : Option SkillFilter) (rt : Runtime)
      → P rt.catalog
      → ((cfg : SkillFilter) (keys : Option (List ProviderSkillKey))
          → P (prompt_sections providers around cfg keys rt.catalog).0)
      → Q rt.sessions
      → ((id : Bytes) → Q (get now id rt.sessions).0)
      → ((id : Bytes)
          → Q
              (keys_in_session providers later between meanwhile id rt.catalog
                (get now id rt.sessions).0).0)
      → P (skills_prompt providers around now later between meanwhile ctx filter rt).0.catalog
        × Q (skills_prompt providers around now later between meanwhile ctx filter rt).0.sessions
  unfolding skills_prompt
  skills_prompt-keeps P Q around now later between meanwhile (some e) filter rt v s p q r = (v, p)
  skills_prompt-keeps P Q around now later between meanwhile none filter rt v s p q r =
      let cfg = normalize_skills_prompt_filter filter in
      let id = cfg.session_id in
      let st = (get now id rt.sessions).0 in
      elim (Result-cases (keys_in_session providers later between meanwhile id rt.catalog st).1) [
        | inl (ks, e) ↦
            (ground (arith, v, s cfg none, s cfg (some ks)), ground (arith, p, q id, r id))
        | inr (x, e) ↦ (ground (arith, v, s cfg none), ground (arith, p, q id, r id))
      ]

  pub skills_prompt-IsSound :
      (around : ℕ → ℕ → Around) (now later : ℕ) (between : Session → Session)
      (meanwhile : Store → Store) (ctx : Ctx) (filter : Option SkillFilter) (rt : Runtime)
      → KeepsSound between meanwhile
      → ((j i : ℕ) → KeepsLinked (around j i))
      → IsSound rt
      → IsSound (skills_prompt providers around now later between meanwhile ctx filter rt).0
  skills_prompt-IsSound around now later between meanwhile ctx filter rt k keeps i =
      let (linked, valid) =
        skills_prompt-keeps IsLinked IsValid around now later between meanwhile ctx filter rt
          i.linked
          (λ cfg keys.
            prompt_sections-keeps IsLinked around
              (λ j k c. ensure_body-IsLinked providers (around j) none k c (keeps j)) cfg keys
              rt.catalog i.linked)
          i.valid (λ id. get-IsValid now id rt.sessions i.valid)
          (λ id.
            keys_in_session-IsValid later between meanwhile id rt.catalog (get now id rt.sessions).0
              k (get-IsValid now id rt.sessions i.valid)) in
      record { linked = linked; valid = valid }
