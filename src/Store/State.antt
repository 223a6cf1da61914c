-- ===== src/Store/State.antt =====
-- The store, the eviction loops and the deletion of an element.
use agentskills_go.Base.{
  ℕ, zero, suc, ◌-◌, ◌*◌, Bytes, bytes_eq, Bool, true, not, List, [], ◌∷◌, Option, none, some, ◌==◌,
  ℤ, pos, int_ltb, length, keep, set_delete, reverse, map_update, if◌then◌else◌,
}
use agentskills_go.Session.State.{Session}

-- An LRU element: the session that it points to, by its id, and `lastUsed`, in nanoseconds.
pub record Item : Type 0 where
  pub s : Bytes
  pub last_used : ℕ

pub record StoreConfig : Type 0 where
  pub ttl : ℤ
  pub max_sessions : ℤ
  pub max_active_per_session : ℤ

-- `lru` has the most recently used element in front; `m` holds the ids that map to an element, and
-- `heap` every session object ever made, by its id, since callers keep pointers to deleted ones.
pub record Store : Type 0 where
  pub ttl : ℤ
  pub max_sessions : ℤ
  pub lru : List Item
  pub m : List Bytes
  pub heap : List (Bytes × Session)
  pub cfg : StoreConfig

-- 24 hours, and the other default of `NewStore`
abbrev pub default_ttl : ℕ
default_ttl = 24 * 60 * 60 * 1_000_000_000

abbrev pub default_max_sessions : ℕ
default_max_sessions = 4096

-- `v <= 0`
abbrev pub is_unset : ℤ → Bool
is_unset v = not (int_ltb (pos 0) v)

unfoldable pub new_store : StoreConfig → Store
new_store cfg = record {
  ttl = if is_unset cfg.ttl then pos default_ttl else cfg.ttl;
  max_sessions = if is_unset cfg.max_sessions then pos default_max_sessions else cfg.max_sessions;
  lru = [];
  m = [];
  heap = [];
  cfg = cfg;
}

abbrev pub close : Session → Session
close s = record s { closed = true }

-- the LRU list without the element of a session
abbrev pub remove : Bytes → List Item → List Item
remove id = keep (λ it. not (it.s == id))

-- `deleteElemLocked`, for the element of the session `id`
unfoldable pub delete_elem : Bytes → Store → Store
delete_elem id st = record st {
  m = set_delete id st.m;
  heap = map_update id close st.heap;
  lru = remove id st.lru;
}

-- `lru.Back()`
abbrev pub back : List Item → Option Item
back [] = none
back (it ∷ l) = elim (back l) [ none ↦ some it | some last ↦ some last ]

-- The loop of `evictOverLimitLocked`; the first number bounds the rounds.
unfoldable pub evict_rounds : ℕ → Store → Store
evict_rounds zero st = st
evict_rounds (suc n) st = elim (back st.lru) [
  | none ↦ st
  | some it ↦
      let next = evict_rounds n (delete_elem it.s st) in
      if int_ltb st.max_sessions (pos (length st.lru)) then next else st
]

-- `evictOverLimitLocked`: each round drops an element, so there are as many as elements at most.
unfoldable pub evict_over_limit : Store → Store
evict_over_limit st = if is_unset st.max_sessions then st else evict_rounds (length st.lru) st

-- `now.Sub(it.lastUsed) <= st.ttl`; the difference is never negative where time does not run back,
-- and a negative one would be no longer than a positive `ttl` either.
unfoldable pub is_fresh : ℤ → ℕ → Item → Bool
is_fresh ttl now it = not (int_ltb ttl (pos (now - it.last_used)))

-- The walk of `evictExpiredLocked` from the back; the list holds the elements not yet visited.
unfoldable pub expire_walk : ℕ → List Item → Store → Store
expire_walk now [] st = st
expire_walk now (it ∷ rest) st =
    let next = expire_walk now rest (delete_elem it.s st) in
    if is_fresh st.ttl now it then st else next

unfoldable pub evict_expired : ℕ → Store → Store
evict_expired now st = if is_unset st.ttl then st else expire_walk now (reverse st.lru) st
