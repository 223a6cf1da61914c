-- ===== src/Session/Kept.antt =====
-- What `ActivateKeys` does to the catalog is what its calls of `EnsureBody` and the others do.
use agentskills_go.Base.{
  ℕ, zero, suc, Bytes, Bool, List, [], ◌∷◌, none, some, arith, inl, inr, Option-cases,
}
use agentskills_go.Session.Activate.{
  Interference, load_mode, collect_keys, ensure_bodies, next_order, round_from, retry_loop,
  activate_keys,
}
use agentskills_go.Session.State.{Catalog, Session}
use agentskills_go.Spec.{Ctx, Result-cases, ProviderSkillKey}

-- The other goroutines keep a property of the catalog.
pub record Keeps {C : Type 0} (P : C → Type 0) (others : Interference C) : Type 0 where
  pub before : (st : Session × C) → P st.1 → P (others.before st).1
  pub mid : (st : Session × C) → P st.1 → P (others.mid st).1
  pub late : (st : Session × C) → P st.1 → P (others.late st).1

module _ {C : Type 0} (cat : Catalog C) (P : C → Type 0)
    (ensure : (ctx : Ctx) (c : C) (k : ProviderSkillKey)
      → P c
      → P (cat.ensure_body ctx c k).0) where
  ensure_bodies-keeps :
      (ctx : Ctx) (c : C) (ks : List ProviderSkillKey) → P c → P (ensure_bodies cat ctx c ks).0
  unfolding ensure_bodies
  ensure_bodies-keeps ctx c [] p = p
  ensure_bodies-keeps ctx c (k ∷ ks) p =
      let next = (cat.ensure_body ctx c k).0 in
      ground (arith, p, ensure ctx c k p, ensure_bodies-keeps ctx next ks)

  round_from-keeps :
      (ctx : Ctx) (replace : Bool) (req : List ProviderSkillKey) (others : Interference C)
      (s : Session) (c : C)
      → Keeps P others
      → P c
      → P (round_from cat ctx replace req others (s, c)).0.1
  unfolding round_from
  round_from-keeps ctx replace req others s c k p =
      let order = next_order replace req s.active_order s.active_set in
      let (s1, c1) = others.mid (s, c) in
      let p2 = ensure_bodies-keeps ctx c1 order (k.mid (s, c) p) in
      let p3 = k.late (s1, (ensure_bodies cat ctx c1 order).0) p2 in ground (arith, p, p2, p3)

  module _ (others : ℕ → Interference C) (keeps : (n : ℕ) → Keeps P (others n)) where
    retry_loop-keeps :
        (n : ℕ) (ctx : Ctx) (replace : Bool) (req : List ProviderSkillKey) (st : Session × C)
        → P st.1
        → P (retry_loop cat n others ctx replace req st).0.1
    unfolding retry_loop
    retry_loop-keeps zero ctx replace req st p = p
    retry_loop-keeps (suc n) ctx replace req st p =
        let (s0, c0) = (others n).before st in
        let out = round_from cat ctx replace req (others n) (s0, c0) in
        let p1 =
          round_from-keeps ctx replace req (others n) s0 c0 (keeps n) ((keeps n).before st p) in
        ground (arith, p1, retry_loop-keeps n ctx replace req out.0 p1)

    -- Every outcome keeps what `EnsureBody` and the others keep.
    pub activate_keys-keeps :
        (touch : Session → Session) (ctx : Ctx) (keys : List ProviderSkillKey) (mode : Bytes)
        (s : Session) (c : C)
        → P c
        → P (activate_keys cat touch others ctx keys mode (s, c)).0.1
    unfolding activate_keys
    activate_keys-keeps touch (some e) keys mode s c p = p
    activate_keys-keeps touch none keys mode s c p = elim (Option-cases (load_mode mode)) [
      | inl e ↦ ground (arith, p)
      | inr (replace, e) ↦ elim (Result-cases (collect_keys cat c [] keys)) [
        | inl (req, f) ↦ ground (arith, p, retry_loop-keeps 5 none replace req (touch s, c) p)
        | inr (x, f) ↦ ground (arith, p)
      ]
    ]
