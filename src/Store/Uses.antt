-- ===== src/Store/Uses.antt =====
-- What a caller of the store sees: which sessions are found, in which order they are kept, how many
-- there are, and what pruning leaves.
use native.Mathlib.Nat.{le_refl}
use agentskills_go.Base.{
  ℕ, Bytes, bytes_eq, false, not, ◌∷◌, none, some, ◌==◌, ◌≡◌, ap, arith, keep, contains,
  if◌then◌else◌,
}
use agentskills_go.Spec.{key_eq}
use agentskills_go.Store.Evict.{evict_expired-keep}
use agentskills_go.Store.Ops.{move_to_front, use_session, get}
use agentskills_go.Store.Recent.{ids, IsRecent, keep-IsRecent}
use agentskills_go.Store.State.{Store, remove, is_fresh, is_unset, evict_expired}
use agentskills_go.Store.Valid.{IsValid, evict_expired-IsValid}

-- On a valid store with a positive time to live, whose elements are in the order of use and none
-- later than now, `Get` finds exactly the sessions whose element is fresh. A session that is found
-- moves to the front with the new time, behind it stand the other fresh ones in their order, and
-- if none is found the fresh ones are left as they were.
pub get-found :
    (now : ℕ) (id : Bytes) (st : Store)
    → IsValid st
    → IsRecent now st.lru
    → is_unset st.ttl ≡ false
    → let fresh = keep (is_fresh st.ttl now) st.lru in
      ((get now id st).1 ≡ (if contains id (ids fresh) then some id else none))
      × ((get now id st).0.lru ≡ (
          if contains id (ids fresh)
          then record { s = id; last_used = now } ∷ remove id fresh
          else fresh))
unfolding get use_session move_to_front
get-found now id st v r on =
    let st' = evict_expired now st in
    let w = evict_expired-IsValid now st v in
    let e = evict_expired-keep now now st on r v.distinct in
    (
      ground (arith, e, w.indexed id, w.live id, ap ids e),
      ground (arith, e, w.indexed id, w.live id, ap ids e),
    )

-- On a valid store with a positive time to live, whose elements are in the order of use and none
-- later than now, `Get` keeps the elements in the order of use.
pub get-IsRecent :
    (now : ℕ) (id : Bytes) (st : Store)
    → IsValid st
    → IsRecent now st.lru
    → is_unset st.ttl ≡ false
    → IsRecent now (get now id st).0.lru
get-IsRecent now id st v r on =
    let fresh = keep (is_fresh st.ttl now) st.lru in
    let w = keep-IsRecent (is_fresh st.ttl now) now st.lru r in
    ground (
      arith,
      (get-found now id st v r on).1,
      w,
      keep-IsRecent (λ it. not (it.s == id)) now fresh w,
      le_refl now,
    )
