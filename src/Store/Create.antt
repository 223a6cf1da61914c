-- ===== src/Store/Create.antt =====
-- `NewSession`: the store stays valid and within its bound, and a failure leaves no session behind.
use agentskills_go.Base.{
  ℕ, suc, Bytes, bytes_eq, false, not, List, ◌∷◌, none, some, ◌==◌, ==_refl, ◌≡◌, ◌∙◌, refl, ap,
  arith, ℤ, pos, take, take-take, contains, contains-keep, keep, lookup, Option-cases, inl, inr,
}
use agentskills_go.Session.Activate.{Interference, activate_keys}
use agentskills_go.Session.Follows.{Rely}
use agentskills_go.Session.Linear.{activate_keys-IsConsistent}
use agentskills_go.Session.State.{Catalog}
use agentskills_go.Spec.{ProviderSkillKey, Ctx, load_mode_replace, Result, ok, err, Error}
use agentskills_go.Store.Evict.{
  evict_expired-keep, evict_over_limit-take, evict_over_limit_inv, evict_expired_inv,
}
use agentskills_go.Store.Ops.{
  NewSessionParams, touch, delete, push_session, register, activate_session, new_session_in,
  session_bound,
}
use agentskills_go.Store.Recent.{ids, ids-remove, IsRecent}
use agentskills_go.Store.State.{
  Store, Item, delete_elem, is_fresh, is_unset, evict_expired, evict_over_limit,
}
use agentskills_go.Store.Valid.{
  IsValid, IsNew, delete_elem-IsNew, put_session-IsValid, touch-IsValid, delete-IsValid,
  register-IsValid, evict_expired-IsValid, evict_over_limit-IsValid, push_session-IsValid,
}

module _ {C : Type 0} (cat : Catalog C) (others : ℕ → Interference C)
    (r : (n : ℕ) → Rely (others n)) (meanwhile : Store → Store)
    (keeps : (st : Store) → IsValid st → IsValid (meanwhile st)) where
  pub activate_session-IsValid :
      (now : ℕ) (ctx : Ctx) (id : Bytes) (keys : List ProviderSkillKey) (mode : Bytes) (st : Store)
      (c : C)
      → IsValid st
      → IsValid (activate_session cat now others meanwhile ctx id keys mode (st, c)).0.0
  unfolding activate_session
  activate_session-IsValid now (some e) id keys mode st c v = v
  activate_session-IsValid now none id keys mode st c v =
      let st' = touch now id st in
      let w = touch-IsValid now id st v in
      elim (Option-cases (lookup id st'.heap)) [
        | inl miss ↦ rw (miss, activate_session) (keeps st' w)
        | inr (s, hit) ↦
            rw (hit, activate_session)
              (put_session-IsValid id (activate_keys cat (λ x. x) others none keys mode (s, c)).0.0
                (meanwhile st')
                (activate_keys-IsConsistent cat others r (λ x. x) none keys mode s c
                  (w.sound id s hit) (w.sound id s hit))
                (keeps st' w))
      ]

  -- On a valid store every outcome of `NewSession` leaves the store valid, if the generator's id
  -- is new, and the other goroutines keep the session consistent and count its version up with every
  -- change, and the store valid: they may prune, delete or evict the session meanwhile.
  pub new_session_in-IsValid :
      (now later : ℕ) (uuid : Result Bytes) (ctx : Ctx) (p : NewSessionParams) (st : Store) (c : C)
      → ((id : Bytes) → uuid ≡ ok id → IsNew id st)
      → IsValid st
      → IsValid (new_session_in cat now later uuid others meanwhile ctx p (st, c)).0.0
  unfolding new_session_in
  new_session_in-IsValid now later uuid (some e) p st c fresh v = v
  new_session_in-IsValid now later (err e) none p st c fresh v =
      evict_over_limit-IsValid _ (evict_expired-IsValid now st v)
  new_session_in-IsValid now later (ok id) none p st c fresh v =
      let st1 = register now id (session_bound st p) st in
      let v1 = register-IsValid now id (session_bound st p) st (fresh id refl) v in
      let out =
        activate_session cat later others meanwhile none id p.active_keys load_mode_replace
          (st1, c) in
      let v2 = activate_session-IsValid later none id p.active_keys load_mode_replace st1 c v1 in
      ground (arith, v1, v2, delete-IsValid id out.0.0 v2)

  -- On a valid store, where the generator's id is new, and the other goroutines keep the session
  -- consistent, count its version up with every change, and keep the store valid: if activating the
  -- initial skills under a live context fails, the new session is not in the store.
  pub new_session_in-failed :
      (now later : ℕ) (id : Bytes) (p : NewSessionParams) (st : Store) (c : C) (e : Error)
      → IsNew id st
      → IsValid st
      → (new_session_in cat now later (ok id) others meanwhile none p (st, c)).1 ≡ err e
      → contains id
          (ids (new_session_in cat now later (ok id) others meanwhile none p (st, c)).0.0.lru)
        ≡ false
  unfolding new_session_in delete delete_elem
  new_session_in-failed now later id p st c e fresh v failed =
      let st1 = register now id (session_bound st p) st in
      let v1 = register-IsValid now id (session_bound st p) st fresh v in
      let st2 =
        (activate_session cat later others meanwhile none id p.active_keys load_mode_replace
          (st1, c)).0.0 in
      let v2 = activate_session-IsValid later none id p.active_keys load_mode_replace st1 c v1 in
      ground (
        arith,
        v2.indexed id,
        ids-remove id st2.lru,
        contains-keep (λ x. not (x == id)) id (ids st2.lru),
        ==_refl id,
      )

max_sessions-delete_elem :
    (b : ℤ) (id : Bytes) (st : Store) → st.max_sessions ≡ b → (delete_elem id st).max_sessions ≡ b
unfolding delete_elem
max_sessions-delete_elem b id st h = h

push_session-lru :
    (now : ℕ) (id : Bytes) (max_active : ℤ) (st : Store)
    → ((push_session now id max_active st).lru ≡ record { s = id; last_used = now } ∷ st.lru)
      × ((push_session now id max_active st).max_sessions ≡ st.max_sessions)
unfolding push_session
push_session-lru now id max_active st = (refl, refl)

-- What `NewSession` leaves in a valid store before it activates skills: the new session in front,
-- and behind it the fresh ones in their order, as many as the bound still allows. The bound and
-- the time to live are positive, the id is new, and the elements are in the order of use.
pub register-lru :
    (k now : ℕ) (id : Bytes) (max_active : ℤ) (st : Store)
    → st.max_sessions ≡ pos (suc k)
    → is_unset st.ttl ≡ false
    → IsRecent now st.lru
    → IsNew id st
    → IsValid st
    → (register now id max_active st).lru
      ≡ record { s = id; last_used = now } ∷ take k (keep (is_fresh st.ttl now) st.lru)
unfolding register
register-lru k now id max_active st b on r fresh v =
    let top : Item = record { s = id; last_used = now } in
    let bound = max_sessions-delete_elem (pos (suc k)) in
    let new = delete_elem-IsNew id in
    let st1 = evict_expired now st in
    let st2 = evict_over_limit st1 in
    let b1 = evict_expired_inv _ bound now st b in
    let b2 = evict_over_limit_inv _ bound st1 b1 in
    let v1 = evict_expired-IsValid now st v in
    let v2 = evict_over_limit-IsValid st1 v1 in
    let n2 = evict_over_limit_inv _ new st1 (evict_expired_inv _ new now st fresh) in
    let v3 = push_session-IsValid now id max_active st2 n2 v2 in
    let e1 = evict_expired-keep now now st on r v.distinct in
    let e2 = evict_over_limit-take (suc k) st1 (omega arith) b1 v1.distinct in
    let (pushed, same) = push_session-lru now id max_active st2 in
    evict_over_limit-take (suc k) (push_session now id max_active st2) (omega arith) (same ∙ b2)
      v3.distinct
    ∙ ap (take (suc k)) pushed
    ∙ ap (◌∷◌ top) (ap (take k) (e2 ∙ ap (take (suc k)) e1) ∙ take-take k (suc k) _ (omega arith))
