-- ===== src/Session/Linear.antt =====
-- The retry loop of `ActivateKeys` against other goroutines: what it commits was planned from the
-- active list that the commit replaces.
use agentskills_go.Base.{
  ℕ, zero, suc, Bool, true, false, List, [], ◌≡◌, refl, arith, none, some, IsDistinct, Bytes, ◌⊎◌,
  inl, inr,
}
use agentskills_go.Session.Activate.{
  Interference, Outcome, retry, done, activated, next_order, collect_keys, load_mode, commit,
  round_from, retry_loop, activate_keys, ensure_bodies,
}
use agentskills_go.Session.Commit.{
  next_order-IsDistinct, collect_keys-IsDistinct, commit-IsConsistent,
}
use agentskills_go.Session.Consistent.{IsConsistent}
use agentskills_go.Session.Follows.{Rely, Follows-same}
use agentskills_go.Session.State.{Catalog, Session, too_many, active_handles}
use agentskills_go.Spec.{ProviderSkillKey, SkillHandle, key_eq, Result, ok, Ctx, Result-cases}

Outcome-cases : (o : Outcome) → (o ≡ retry) ⊎ ((r : Result (List SkillHandle)) × (o ≡ done r))
Outcome-cases retry = inl refl
Outcome-cases (done r) = inr (r, refl)

module _ {C : Type 0} (cat : Catalog C) where
  -- The session and the catalog as the commit of a round finds them: what the other goroutines have
  -- made, before the commit, of the snapshot `(s, c)` and of the catalog with the bodies loaded.
  abbrev pub at_commit :
      Ctx → Bool → List ProviderSkillKey → Interference C → Session × C → Session × C
  at_commit ctx replace req others (s, c) =
      let order = next_order replace req s.active_order s.active_set in
      let (s1, c1) = others.mid (s, c) in
      let c2 = (ensure_bodies cat ctx c1 order).0 in others.late (s1, c2)

  -- The final session and handles come from one atomic change of the session in `st`.
  pub record Committed (replace : Bool) (req : List ProviderSkillKey) (st out : Session × C)
      (hs : List SkillHandle) : Type 0 where
    pub alive : st.0.closed ≡ false
    pub valid : IsConsistent st.0
    pub fits :
        too_many st.0.max_active (next_order replace req st.0.active_order st.0.active_set) ≡ false
    pub atomic :
        active_handles cat st.1
          (activated (next_order replace req st.0.active_order st.0.active_set) st.0)
        ≡ (out.0, hs)
    pub catalog : out.1 ≡ st.1

  -- The states from which the rounds start, with the number of rounds that are left: the first
  -- starts from `st`, and each later one from what a round that could not commit leaves.
  pub data Starts (others : ℕ → Interference C) (ctx : Ctx) (replace : Bool)
      (req : List ProviderSkillKey) (m : ℕ) (st : Session × C) : ℕ → Session × C → Type 0 where
    first : Starts others ctx replace req m st m st
    again :
        {n : ℕ} {now : Session × C}
        → Starts others ctx replace req m st (suc n) now
        → (round_from cat ctx replace req (others n) ((others n).before now)).1 ≡ retry
        → Starts others ctx replace req m st n
            (round_from cat ctx replace req (others n) ((others n).before now)).0

  -- What the loop commits when it ends with handles: some round has started and committed.
  abbrev pub HasCommitted :
      (ℕ → Interference C)
      → Ctx
      → Bool
      → List ProviderSkillKey
      → ℕ
      → Session × C
      → Session × C
      → List SkillHandle
      → Type 0
  HasCommitted others ctx replace req m start out hs =
      (n : ℕ) × (st : Session × C) × Starts others ctx replace req m start (suc n) st
      × Committed replace req (at_commit ctx replace req (others n) ((others n).before st)) out hs

  commit_step :
      (replace : Bool) (req : List ProviderSkillKey) (s t : Session) (c d : C)
      → d ≡ c
      → (t.state_version ≡ s.state_version
          → (t.active_order ≡ s.active_order) × (t.active_set ≡ s.active_set))
      → (hs : List SkillHandle) (u : Session) → t.max_active ≡ s.max_active
      → IsConsistent t
      → too_many s.max_active (next_order replace req s.active_order s.active_set) ≡ false
      → commit cat s.state_version (next_order replace req s.active_order s.active_set) c t
        ≡ (u, done (ok hs))
      → Committed replace req (t, c) (u, d) hs
  unfolding commit
  commit_step replace req s t c d same_c same hs u b v fits e =
      let same' : t.state_version ≡ s.state_version = ground arith in
      let (so, ss) = same same' in
      record { alive = ground arith; valid = v; fits = cc; atomic = ground arith; catalog = same_c }

  -- A round that ends with handles has committed, on the session as the commit found it.
  round_from-Committed :
      (ctx : Ctx) (replace : Bool) (req : List ProviderSkillKey) (others : Interference C)
      (s : Session) (c : C) (out : Session × C) (hs : List SkillHandle)
      → Rely others
      → IsConsistent s
      → round_from cat ctx replace req others (s, c) ≡ (out, done (ok hs))
      → Committed replace req (at_commit ctx replace req others (s, c)) out hs
  unfolding round_from
  round_from-Committed ctx replace req others s c (u, d) hs r v e =
      let order = next_order replace req s.active_order s.active_set in
      let (s1, c1) = others.mid (s, c) in
      let c2 = (ensure_bodies cat ctx c1 order).0 in
      let (s3, c3) = others.late (s1, c2) in
      let f = r.mid (s, c) v in
      let g = r.late (s1, c2) f.valid in
      commit_step replace req s s3 c3 d (ground arith) (Follows-same v f g) hs u
        (cc (f.bound, g.bound)) g.valid (ground arith) (ground arith)

  -- A round that asks for another one leaves a consistent session.
  round_from-IsConsistent :
      (ctx : Ctx) (replace : Bool) (req : List ProviderSkillKey) (others : Interference C)
      (s : Session) (c : C)
      → Rely others
      → IsDistinct req
      → IsConsistent s
      → IsConsistent (round_from cat ctx replace req others (s, c)).0.0
  unfolding round_from
  round_from-IsConsistent ctx replace req others s c r d v =
      let order = next_order replace req s.active_order s.active_set in
      let (s1, c1) = others.mid (s, c) in
      let c2 = (ensure_bodies cat ctx c1 order).0 in
      let (s3, c3) = others.late (s1, c2) in
      let f = r.mid (s, c) v in
      let g = r.late (s1, c2) f.valid in
      ground (
        arith,
        f.valid,
        λ (fits : too_many s.max_active order ≡ false).
            commit-IsConsistent cat c3 s.state_version order g.valid
              (next_order-IsDistinct replace req s.active_order s.active_set d v.distinct)
              (ground arith),
      )

  module _ (others : ℕ → Interference C) (r : (n : ℕ) → Rely (others n)) where
    retry_loop-HasCommitted :
        (n : ℕ) (ctx : Ctx) (replace : Bool) (req : List ProviderSkillKey) (m : ℕ)
        (start st out : Session × C) (hs : List SkillHandle)
        → IsDistinct req
        → IsConsistent st.0
        → Starts others ctx replace req m start n st
        → retry_loop cat n others ctx replace req st ≡ (out, ok hs)
        → HasCommitted others ctx replace req m start out hs
    unfolding retry_loop
    retry_loop-HasCommitted zero ctx replace req m start st out hs d v p e = absurd (ground arith)
    retry_loop-HasCommitted (suc n) ctx replace req m start st out hs d v p e =
        let (s0, c0) = (others n).before st in
        let w = ((r n).before st v).valid in
        let (st', o) = round_from cat ctx replace req (others n) (s0, c0) in
        elim (Outcome-cases o) [
          | inl redo ↦
              retry_loop-HasCommitted n ctx replace req m start st' out hs d
                (round_from-IsConsistent ctx replace req (others n) s0 c0 (r n) d w) (again p redo)
                (ground arith)
          | inr (res, fin) ↦ (
            n,
            st,
            p,
            round_from-Committed ctx replace req (others n) s0 c0 out hs (r n) w (ground arith),
          )
        ]

    pub retry_loop-IsConsistent :
        (n : ℕ) (ctx : Ctx) (replace : Bool) (req : List ProviderSkillKey) (st : Session × C)
        → IsDistinct req
        → IsConsistent st.0
        → IsConsistent (retry_loop cat n others ctx replace req st).0.0
    unfolding retry_loop
    retry_loop-IsConsistent zero ctx replace req st d v = v
    retry_loop-IsConsistent (suc n) ctx replace req st d v =
        let (s0, c0) = (others n).before st in
        let w = ((r n).before st v).valid in
        let st' = (round_from cat ctx replace req (others n) (s0, c0)).0 in
        let x = round_from-IsConsistent ctx replace req (others n) s0 c0 (r n) d w in
        ground (arith, x, retry_loop-IsConsistent n ctx replace req st' d x)

    -- If the session is consistent after the touch, and the other goroutines, between the
    -- stretches of `ActivateKeys` under the lock, keep it consistent and count its version up with
    -- every change of its active list (fewer than 2^62 changes in a stretch), then a successful
    -- `ActivateKeys` has committed in one of at most five rounds, each after the first started from
    -- what a round without a commit left; and the commit has replaced, in one step, the active list
    -- of the open and consistent session that the other goroutines of that round left to it: by the
    -- requested keys, or by the keys of that very session that were not asked for and then the
    -- requested. The final session and catalog are those of that step.
    pub activate_keys-Committed :
        (touch : Session → Session) (ctx : Ctx) (keys : List ProviderSkillKey) (mode : Bytes)
        (s : Session) (c : C) (out : Session × C) (hs : List SkillHandle)
        → IsConsistent (touch s)
        → activate_keys cat touch others ctx keys mode (s, c) ≡ (out, ok hs)
        → (replace : Bool) × (req : List ProviderSkillKey) × (load_mode mode ≡ some replace)
          × (collect_keys cat c [] keys ≡ ok req)
          × HasCommitted others ctx replace req 5 (touch s, c) out hs
    unfolding activate_keys
    activate_keys-Committed touch (some x) keys mode s c out hs v e = absurd (ground arith)
    activate_keys-Committed touch none keys mode s c out hs v e =
        let (replace, req, m, q, l) = begun in
        (
          replace,
          req,
          m,
          q,
          retry_loop-HasCommitted 5 none replace req 5 (touch s, c) (touch s, c) out hs
              (collect_keys-IsDistinct cat c [] keys tt q) v first l,
        )
      where
        begun :
            (replace : Bool) × (req : List ProviderSkillKey) × (load_mode mode ≡ some replace)
            × (collect_keys cat c [] keys ≡ ok req)
            × (retry_loop cat 5 others none replace req (touch s, c) ≡ (out, ok hs))
        begun = ground arith

    -- If the session is consistent before and after the touch, and the other goroutines keep it
    -- consistent and count its version up with every change, every outcome of `ActivateKeys`,
    -- errors included, leaves it consistent.
    pub activate_keys-IsConsistent :
        (touch : Session → Session) (ctx : Ctx) (keys : List ProviderSkillKey) (mode : Bytes)
        (s : Session) (c : C)
        → IsConsistent s
        → IsConsistent (touch s)
        → IsConsistent (activate_keys cat touch others ctx keys mode (s, c)).0.0
    unfolding activate_keys
    activate_keys-IsConsistent touch (some x) keys mode s c v w = v
    activate_keys-IsConsistent touch none keys mode s c v w =
        elim (Result-cases (collect_keys cat c [] keys)) [
          | inl (req, e) ↦ ground (
            arith,
            retry_loop-IsConsistent 5 none true req (touch s, c)
                (collect_keys-IsDistinct cat c [] keys tt e) w,
            retry_loop-IsConsistent 5 none false req (touch s, c)
                (collect_keys-IsDistinct cat c [] keys tt e) w,
          )
          | inr e ↦ ground arith
        ]
