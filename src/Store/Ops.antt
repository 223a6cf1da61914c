-- ===== src/Store/Ops.antt =====
-- The operations of the store. `now` is the time that the call reads.
use agentskills_go.Base.{
  ℕ, Bytes, bytes_eq, Bool, true, false, not, List, [], ◌∷◌, Option, none, some, ℤ, pos, int_ltb,
  contains, set_insert, map_insert, map_update, lookup, if◌then◌else◌,
}
use agentskills_go.Session.Activate.{Interference, activate_keys}
use agentskills_go.Session.State.{Catalog, Session, new_session, prune_key, is_empty}
use agentskills_go.Spec.{
  ProviderSkillKey, SkillHandle, Result, ok, err, Error, Ctx, load_mode_replace,
}
use agentskills_go.Store.State.{Store, Item, delete_elem, remove, evict_over_limit, evict_expired}

pub record NewSessionParams : Type 0 where
  pub max_active_per_session : ℤ
  pub active_keys : List ProviderSkillKey

-- the bound of a new session: the caller's if it is positive, and the store's otherwise
unfoldable pub session_bound : Store → NewSessionParams → ℤ
session_bound st p =
    if int_ltb (pos 0) p.max_active_per_session
    then p.max_active_per_session
    else st.cfg.max_active_per_session

-- whether the session object of this id is missing or closed
unfoldable pub is_gone : Store → Bytes → Bool
is_gone st id = elim (lookup id st.heap) [ none ↦ true | some s ↦ s.closed ]

-- `it.lastUsed = now` and `lru.MoveToFront(e)`
unfoldable pub move_to_front : ℕ → Bytes → Store → Store
move_to_front now id st = record st { lru = record { s = id; last_used = now } ∷ remove id st.lru }

-- What `Get` and `touch` have in common; the Boolean tells whether the session was found.
unfoldable pub use_session : ℕ → Bytes → Store → Store × Bool
use_session now id st =
    let st' = evict_expired now st in
    if not (contains id st'.m)
    then (st', false)
    else if is_gone st' id
    then (delete_elem id st', false)
    else (move_to_front now id st', true)

-- `Get`: the session is the object of that id in the heap.
unfoldable pub get : ℕ → Bytes → Store → Store × Option Bytes
get now id st = let (st', found) = use_session now id st in (st', if found then some id else none)

unfoldable pub touch : ℕ → Bytes → Store → Store
touch now id st = (use_session now id st).0

unfoldable pub delete : Bytes → Store → Store
delete id st = if contains id st.m then delete_elem id st else st

-- The sessions that `PruneSkill` collects are pruned one after the other.
unfoldable pub prune_sessions : ProviderSkillKey → List Item → Store → Store
prune_sessions key [] st = st
prune_sessions key (it ∷ rest) st =
    prune_sessions key rest
      (if is_gone st it.s then st else record st { heap = map_update it.s (prune_key key) st.heap })

unfoldable pub prune_skill : ProviderSkillKey → Store → Store
prune_skill key st = prune_sessions key st.lru st

-- A new session object, its element in front, and its entry in the map.
unfoldable pub push_session : ℕ → Bytes → ℤ → Store → Store
push_session now id max_active st = record st {
  heap =
      map_insert id (new_session (record { id = id; max_active_per_session = max_active })) st.heap;
  lru = record { s = id; last_used = now } ∷ st.lru;
  m = set_insert id st.m;
}

-- The part of `NewSession` under the lock, with the id that the generator gave.
unfoldable pub register : ℕ → Bytes → ℤ → Store → Store
register now id max_active st =
    evict_over_limit (push_session now id max_active (evict_over_limit (evict_expired now st)))

-- What an operation of a session leaves of the object of this id. Whether the object is closed, the
-- operation does not write: only the store does, and it may have done so meanwhile.
unfoldable pub put_session : Bytes → Session → Store → Store
put_session id s st = record st {
  heap = map_update id (λ x. record s { closed = x.closed }) st.heap;
}

module _ {C : Type 0} (cat : Catalog C) where
  -- `s.ActivateKeys` on the session object of this id: its touch is the store's. It does not hold
  -- the store's lock: `meanwhile` is what the other goroutines make of the store while it runs,
  -- deletions and evictions of this session among it, and `others` what they do to the object.
  unfoldable pub activate_session :
      ℕ
      → (ℕ → Interference C)
      → (Store → Store)
      → Ctx
      → Bytes
      → List ProviderSkillKey
      → Bytes
      → Store × C
      → (Store × C) × Result (List SkillHandle)
  activate_session now others meanwhile (some e) id keys mode (st, c) = ((st, c), err e)
  activate_session now others meanwhile none id keys mode (st, c) =
      let st' = touch now id st in
      elim (lookup id st'.heap) [
        | none ↦ ((meanwhile st', c), err Error.session_not_found)
        | some s ↦
            let ((s', c'), r) = activate_keys cat (λ x. x) others none keys mode (s, c) in
            ((put_session id s' (meanwhile st'), c'), r)
      ]

  -- `NewSession`: two readings of the clock, and what the id generator returns.
  unfoldable pub new_session_in :
      ℕ
      → ℕ
      → Result Bytes
      → (ℕ → Interference C)
      → (Store → Store)
      → Ctx
      → NewSessionParams
      → Store × C
      → (Store × C) × Result (Bytes × List SkillHandle)
  new_session_in now later uuid others meanwhile (some e) p st = (st, err e)
  new_session_in now later (err e) others meanwhile none p (st, c) =
      ((evict_over_limit (evict_expired now st), c), err e)
  new_session_in now later (ok id) others meanwhile none p (st, c) =
      let st1 = register now id (session_bound st p) st in
      let ((st2, c2), r) =
        activate_session later others meanwhile none id p.active_keys load_mode_replace (st1, c) in
      if is_empty p.active_keys then ((st1, c), ok (id, [])) else elim r [
        | ok handles ↦ ((st2, c2), ok (id, handles))
        | err e ↦ ((delete id st2, c2), err e)
      ]
