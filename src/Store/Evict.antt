-- ===== src/Store/Evict.antt =====
-- The two eviction loops against their meaning: keep what is fresh, keep what fits.
use mathlib.Core.List.{reverse-cons, reverse-reverse}
use agentskills_go.Base.{
  ℕ, zero, suc, ◌≤◌, ◌<◌, Bytes, bytes_eq, Bool, true, false, List, [], ◌∷◌, ◌≡◌, ◌∙◌, sym, ap,
  arith, pos, length, keep, length-append, IsDistinct, reverse, take, take_of_length-le,
  take-append, inl, inr, Bool-cases, Option-cases, if◌then◌else◌,
}
use agentskills_go.Store.State.{
  Store, Item, delete_elem, remove, back, is_fresh, is_unset, evict_rounds, evict_over_limit,
  expire_walk, evict_expired,
}
use agentskills_go.Store.Recent.{
  ids, IsRecent, snoc-cases, back-snoc, remove-snoc, keep-is_fresh, keep-snoc_stale, IsRecent-init,
  IsDistinct-init,
}

-- A property of stores that every deletion keeps is kept by both loops.
module _ {ℓ} (P : Store → Type ℓ)
    (step : (id : Bytes) (st : Store) → P st → P (delete_elem id st)) where
  if_inv : (b : Bool) {x y : Store} → P x → P y → P (if b then x else y)
  if_inv true p q = p
  if_inv false p q = q

  evict_rounds_inv : (n : ℕ) (st : Store) → P st → P (evict_rounds n st)
  unfolding evict_rounds
  evict_rounds_inv zero st p = p
  evict_rounds_inv (suc n) st p = elim (Option-cases (back st.lru)) [
    | inl e ↦ rw (e, evict_rounds) p
    | inr (it, e) ↦
        rw (e, evict_rounds)
          (if_inv _ (evict_rounds_inv n (delete_elem it.s st) (step it.s st p)) p)
  ]

  pub evict_over_limit_inv : (st : Store) → P st → P (evict_over_limit st)
  unfolding evict_over_limit
  evict_over_limit_inv st p = if_inv _ p (evict_rounds_inv (length st.lru) st p)

  expire_walk_inv : (now : ℕ) (l : List Item) (st : Store) → P st → P (expire_walk now l st)
  unfolding expire_walk
  expire_walk_inv now [] st p = p
  expire_walk_inv now (it ∷ rest) st p =
      if_inv _ p (expire_walk_inv now rest (delete_elem it.s st) (step it.s st p))

  pub evict_expired_inv : (now : ℕ) (st : Store) → P st → P (evict_expired now st)
  unfolding evict_expired
  evict_expired_inv now st p = if_inv _ p (expire_walk_inv now (reverse st.lru) st p)

-- The walk stops at the first fresh element, and yet drops exactly the stale ones, since the
-- elements stand in the order of use.
expire_walk-keep :
    (now t : ℕ) (l : List Item) (st : Store)
    → st.lru ≡ reverse l
    → IsRecent t (reverse l)
    → IsDistinct (ids (reverse l))
    → (expire_walk now l st).lru ≡ keep (is_fresh st.ttl now) (reverse l)
unfolding expire_walk delete_elem
expire_walk-keep now t [] st e r d = e
expire_walk-keep now t (it ∷ rest) st e r d =
    let s = reverse-cons it rest in
    let r' = rw s at r in
    let d' = rw s at d in
    elim (Bool-cases (is_fresh st.ttl now it)) [
      | inl f ↦ rw (f, s) (e ∙ s ∙ sym (keep-is_fresh st.ttl now t (reverse rest) it r' f))
      | inr f ↦
          rw (f, s, keep-snoc_stale (is_fresh st.ttl now) (reverse rest) it f)
            (expire_walk-keep now t rest (delete_elem it.s st)
              (ap (remove it.s) (e ∙ s) ∙ remove-snoc (reverse rest) it d')
              (IsRecent-init t (reverse rest) it r') (IsDistinct-init (reverse rest) it d'))
    ]

-- If the time to live is positive and the elements are of different sessions and in the order of
-- use, `evictExpiredLocked` leaves exactly those last used within the time to live, in their
-- order.
pub evict_expired-keep :
    (now t : ℕ) (st : Store)
    → is_unset st.ttl ≡ false
    → IsRecent t st.lru
    → IsDistinct (ids st.lru)
    → (evict_expired now st).lru ≡ keep (is_fresh st.ttl now) st.lru
unfolding evict_expired
evict_expired-keep now t st on r d =
    let e = reverse-reverse st.lru in
    rw on (
      expire_walk-keep now t (reverse st.lru) st (sym e) (rw e r) (rw e d)
      ∙ ap (keep (is_fresh st.ttl now)) e)

evict_rounds-take :
    (n k : ℕ) (st : Store)
    → st.max_sessions ≡ pos k
    → length st.lru ≤ n
    → IsDistinct (ids st.lru)
    → (evict_rounds n st).lru ≡ take k st.lru
unfolding evict_rounds delete_elem
evict_rounds-take zero k st b h d = sym (take_of_length-le k st.lru (omega arith))
evict_rounds-take (suc n) k st b h d = elim (snoc-cases st.lru) [
  | inl e ↦ ground (arith, ap back e, ap (length {0}) e, take_of_length-le k st.lru)
  | inr (xs, it, e) ↦
      let last = ap back e ∙ back-snoc xs it in
      let d' = rw e at d in
      let left = ap (remove it.s) e ∙ remove-snoc xs it d' in
      let n_xs = length-append xs (it ∷ []) in
      let n_lru = ap (length {0}) e in
      let rec =
        evict_rounds-take n k (delete_elem it.s st) b (rw left (omega arith))
          (rw left (IsDistinct-init xs it d')) in
      ground (
        arith,
        last,
        rec,
        left,
        n_xs,
        n_lru,
        take_of_length-le k st.lru,
        ap (take k) e,
        take-append k xs (it ∷ []),
      )
]

-- If the bound is positive and the elements are of different sessions, `evictOverLimitLocked`
-- leaves the elements in front, as many as the bound allows.
pub evict_over_limit-take :
    (k : ℕ) (st : Store)
    → 0 < k
    → st.max_sessions ≡ pos k
    → IsDistinct (ids st.lru)
    → (evict_over_limit st).lru ≡ take k st.lru
unfolding evict_over_limit
evict_over_limit-take k st h b d =
    ground (arith, evict_rounds-take (length st.lru) k st b (omega arith) d)
