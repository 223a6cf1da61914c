-- ===== src/Session/Success.antt =====
-- When `ActivateKeys` runs alone, over a catalog that keeps its promises.
use agentskills_go.Base.{
  ℕ, Bytes, Bool, true, false, List, [], ◌∷◌, ◌≡◌, ◌≢◌, refl, arith, none, some, is_some,
}
use agentskills_go.Session.Activate.{
  Interference, activated, is_known, all_known, next_order, collect_keys, ensure_bodies, load_mode,
  commit, round_from, retry_loop, activate_keys,
}
use agentskills_go.Session.State.{
  Catalog, Session, too_many, has_handle, handles_of, missing_of, active_handles,
}
use agentskills_go.Spec.{ProviderSkillKey, key_eq, ok, Ctx}

-- No other goroutine does anything.
abbrev pub quiet : {C : Type 0} → ℕ → Interference C
quiet n = record { before = λ st. st; mid = λ st. st; late = λ st. st }

-- What a session relies on: a skill has a handle exactly if it is indexed, and loading a body
-- changes neither.
pub record CatalogLaws {C : Type 0} (cat : Catalog C) : Type 0 where
  pub handle_known :
      (c : C) (k : ProviderSkillKey)
      → is_some (cat.handle_for_key c k) ≡ is_some (cat.get_index c k)
  pub ensure_handle :
      (ctx : Ctx) (c : C) (k j : ProviderSkillKey)
      → cat.handle_for_key (cat.ensure_body ctx c k).0 j ≡ cat.handle_for_key c j

module _ {C : Type 0} (cat : Catalog C) (laws : CatalogLaws cat) where
  ensure_bodies-handle :
      (ctx : Ctx) (c : C) (ks : List ProviderSkillKey) (j : ProviderSkillKey)
      → cat.handle_for_key (ensure_bodies cat ctx c ks).0 j ≡ cat.handle_for_key c j
  unfolding ensure_bodies
  ensure_bodies-handle ctx c [] j = refl
  ensure_bodies-handle ctx c (k ∷ ks) j = ground (
    arith,
    laws.ensure_handle ctx c k j,
    ensure_bodies-handle ctx (cat.ensure_body ctx c k).0 ks j,
  )

  all_known-ensure_bodies :
      (ctx : Ctx) (c : C) (ks js : List ProviderSkillKey)
      → all_known cat (ensure_bodies cat ctx c ks).0 js ≡ all_known cat c js
  unfolding all_known is_known
  all_known-ensure_bodies ctx c ks [] = refl
  all_known-ensure_bodies ctx c ks (j ∷ js) =
      let d = (ensure_bodies cat ctx c ks).0 in
      cc (
        laws.handle_known c j,
        laws.handle_known d j,
        ensure_bodies-handle ctx c ks j,
        all_known-ensure_bodies ctx c ks js,
      )

  missing_of-known :
      (c : C) (ks : List ProviderSkillKey) → all_known cat c ks ≡ true → missing_of cat c ks ≡ []
  unfolding all_known is_known missing_of has_handle
  missing_of-known c [] h = refl
  missing_of-known c (k ∷ ks) h = ground (arith, laws.handle_known c k, missing_of-known c ks)

  handles_of-ensure_bodies :
      (ctx : Ctx) (c : C) (ks js : List ProviderSkillKey)
      → handles_of cat (ensure_bodies cat ctx c ks).0 js ≡ handles_of cat c js
  unfolding handles_of
  handles_of-ensure_bodies ctx c ks [] = refl
  handles_of-ensure_bodies ctx c ks (j ∷ js) =
      ground (arith, ensure_bodies-handle ctx c ks j, handles_of-ensure_bodies ctx c ks js)

  -- Alone, over a catalog that keeps the laws of the interface and under a live context, an open
  -- session whose mode and keys validate, whose next list fits and is known, and whose bodies
  -- load, activates exactly that list in its first round, and returns its handles.
  pub activate_keys_alone :
      (touch : Session → Session) (keys : List ProviderSkillKey) (mode : Bytes) (s : Session)
      (c : C) (replace : Bool) (req order : List ProviderSkillKey)
      → (touch s).closed ≡ false
      → load_mode mode ≡ some replace
      → keys ≢ []
      → collect_keys cat c [] keys ≡ ok req
      → order ≡ next_order replace req (touch s).active_order (touch s).active_set
      → too_many (touch s).max_active order ≡ false
      → all_known cat c order ≡ true
      → (ensure_bodies cat none c order).1 ≡ ok tt
      → activate_keys cat touch quiet none keys mode (s, c) ≡ (
        (activated order (touch s), (ensure_bodies cat none c order).0),
        ok (handles_of cat c order),
      )
  unfolding activate_keys retry_loop round_from commit active_handles
  activate_keys_alone touch [] mode s c replace req order alive m ne q plan fits known loads =
      absurd (ne refl)
  activate_keys_alone touch (k ∷ ks) mode s c replace req order alive m ne q plan fits known loads =
      let d = (ensure_bodies cat none c order).0 in
      ground (
        arith,
        all_known-ensure_bodies none c order order,
        missing_of-known d order,
        handles_of-ensure_bodies none c order order,
      )
