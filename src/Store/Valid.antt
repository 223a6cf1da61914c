-- ===== src/Store/Valid.antt =====
-- The invariant of the store, and that its operations keep it.
use mathlib.Core.Path.{subst}
use agentskills_go.Base.{
  Bool-cases, Option-cases, inl, inr, ℕ, Bytes, bytes_eq, Bool, true, not, List, [], ◌∷◌, none,
  some, ◌==◌, ==_refl, ◌≡◌, refl, arith, ℤ, contains, contains-keep, IsDistinct, keep-IsDistinct,
  lookup, map_update, lookup-map_update, lookup-map_insert,
}
use agentskills_go.Session.Consistent.{
  IsConsistent, prune_key-IsConsistent, new_session-IsConsistent,
}
use agentskills_go.Session.State.{Session, SessionConfig, new_session, prune_key}
use agentskills_go.Spec.{ProviderSkillKey, key_eq}
use agentskills_go.Store.Evict.{evict_over_limit_inv, evict_expired_inv}
use agentskills_go.Store.Ops.{
  put_session, is_gone, move_to_front, use_session, touch, get, delete, prune_sessions, prune_skill,
  push_session, register,
}
use agentskills_go.Store.Recent.{ids, ids-remove}
use agentskills_go.Store.State.{
  Store, StoreConfig, Item, close, delete_elem, evict_over_limit, evict_expired, new_store,
}

-- The elements are of different sessions, the map knows exactly these sessions, a session object is
-- open exactly while it has an element, and every session object is consistent.
pub record IsValid (st : Store) : Type 0 where
  pub distinct : IsDistinct (ids st.lru)
  pub indexed : (id : Bytes) → contains id st.m ≡ contains id (ids st.lru)
  pub live : (id : Bytes) → is_gone st id ≡ not (contains id (ids st.lru))
  pub sound : (id : Bytes) (s : Session) → lookup id st.heap ≡ some s → IsConsistent s

pub new_store-IsValid : (cfg : StoreConfig) → IsValid (new_store cfg)
unfolding new_store is_gone
new_store-IsValid cfg = record {
  distinct = tt;
  indexed = λ id. refl;
  live = λ id. refl;
  sound = λ id s e. absurd (ground arith);
}

close-IsConsistent : {s : Session} → IsConsistent s → IsConsistent (close s)
close-IsConsistent v = record {
  distinct = v.distinct;
  same = v.same;
  within = v.within;
  word = v.word;
}

-- A session object is changed in place by something that keeps it consistent.
update_sound :
    (id : Bytes) (f : Session → Session) (heap : List (Bytes × Session))
    → ((s : Session) → lookup id heap ≡ some s → IsConsistent s → IsConsistent (f s))
    → ((j : Bytes) (s : Session) → lookup j heap ≡ some s → IsConsistent s)
    → (j : Bytes) (s : Session) → lookup j (map_update id f heap) ≡ some s
    → IsConsistent s
update_sound id f heap keeps all j s e = elim (Option-cases (lookup j heap)) [
  | inl miss ↦ absurd (ground (arith, lookup-map_update id j f heap))
  | inr (s', hit) ↦ elim (Bool-cases (id == j)) [
    | inl same ↦
        let e' : f s' ≡ s = ground (arith, lookup-map_update id j f heap) in
        subst IsConsistent e' (keeps s' (ground (arith, bytes_eq.beq_iff id j)) (all j s' hit))
    | inr other ↦
        let e' : s' ≡ s = ground (arith, lookup-map_update id j f heap) in
        subst IsConsistent e' (all j s' hit)
  ]
]

delete_elem-IsValid : (id : Bytes) (st : Store) → IsValid st → IsValid (delete_elem id st)
unfolding delete_elem is_gone
delete_elem-IsValid id st v = record {
  distinct =
      rw (ids-remove id st.lru) (keep-IsDistinct (λ x. not (x == id)) (ids st.lru) v.distinct);
  indexed = λ j. ground (
    arith,
    ids-remove id st.lru,
    contains-keep (λ x. not (x == id)) j (ids st.lru),
    contains-keep (λ x. not (x == id)) j st.m,
    v.indexed j,
  );
  live = λ j. ground (
    arith,
    ids-remove id st.lru,
    contains-keep (λ x. not (x == id)) j (ids st.lru),
    lookup-map_update id j close st.heap,
    bytes_eq.beq_iff id j,
    bytes_eq.beq_iff j id,
    v.live j,
  );
  sound = update_sound id close st.heap (λ s _. close-IsConsistent) v.sound;
}

pub evict_expired-IsValid : (now : ℕ) (st : Store) → IsValid st → IsValid (evict_expired now st)
evict_expired-IsValid = evict_expired_inv IsValid delete_elem-IsValid

pub evict_over_limit-IsValid : (st : Store) → IsValid st → IsValid (evict_over_limit st)
evict_over_limit-IsValid = evict_over_limit_inv IsValid delete_elem-IsValid

move_to_front-IsValid :
    (now : ℕ) (id : Bytes) (st : Store)
    → contains id st.m ≡ true
    → IsValid st
    → IsValid (move_to_front now id st)
unfolding move_to_front is_gone
move_to_front-IsValid now id st known v = record {
  distinct = (
    rw (ids-remove id st.lru)
        (ground (arith, contains-keep (λ x. not (x == id)) id (ids st.lru), ==_refl id)),
    rw (ids-remove id st.lru) (keep-IsDistinct (λ x. not (x == id)) (ids st.lru) v.distinct),
  );
  indexed = λ j. ground (
    arith,
    ids-remove id st.lru,
    contains-keep (λ x. not (x == id)) j (ids st.lru),
    bytes_eq.beq_iff id j,
    bytes_eq.beq_iff j id,
    v.indexed j,
  );
  live = λ j. ground (
    arith,
    ids-remove id st.lru,
    contains-keep (λ x. not (x == id)) j (ids st.lru),
    bytes_eq.beq_iff id j,
    bytes_eq.beq_iff j id,
    v.indexed j,
    v.live j,
  );
  sound = v.sound;
}

use_session-IsValid :
    (now : ℕ) (id : Bytes) (st : Store) → IsValid st → IsValid (use_session now id st).0
unfolding use_session
use_session-IsValid now id st v =
    let w = evict_expired-IsValid now st v in
    ground (
      arith,
      w,
      delete_elem-IsValid id (evict_expired now st) w,
      move_to_front-IsValid now id (evict_expired now st),
    )

pub touch-IsValid : (now : ℕ) (id : Bytes) (st : Store) → IsValid st → IsValid (touch now id st)
unfolding touch
touch-IsValid = use_session-IsValid

pub get-IsValid : (now : ℕ) (id : Bytes) (st : Store) → IsValid st → IsValid (get now id st).0
unfolding get
get-IsValid = use_session-IsValid

pub delete-IsValid : (id : Bytes) (st : Store) → IsValid st → IsValid (delete id st)
unfolding delete
delete-IsValid id st v = ground (arith, delete_elem-IsValid id st v)

-- A session object changes, but not whether it is open.
pub update-IsValid :
    (id : Bytes) (f : Session → Session) (st : Store)
    → ((s : Session) → lookup id st.heap ≡ some s → IsConsistent s → IsConsistent (f s))
    → ((s : Session) → lookup id st.heap ≡ some s → (f s).closed ≡ s.closed)
    → IsValid st
    → IsValid (record st { heap = map_update id f st.heap })
unfolding is_gone
update-IsValid id f st keeps same v = record {
  distinct = v.distinct;
  indexed = v.indexed;
  live = λ j. elim (Option-cases (lookup j st.heap)) [
    | inl miss ↦ ground (arith, lookup-map_update id j f st.heap, v.live j)
    | inr (s, hit) ↦
        ground (arith, lookup-map_update id j f st.heap, v.live j, same s, bytes_eq.beq_iff id j)
  ];
  sound = update_sound id f st.heap keeps v.sound;
}

set_closed-IsConsistent :
    (b : Bool) (s : Session) → IsConsistent s → IsConsistent (record s { closed = b })
set_closed-IsConsistent b s v = record {
  distinct = v.distinct;
  same = v.same;
  within = v.within;
  word = v.word;
}

-- Writing back a consistent session keeps the store valid.
pub put_session-IsValid :
    (id : Bytes) (s : Session) (st : Store)
    → IsConsistent s
    → IsValid st
    → IsValid (put_session id s st)
unfolding put_session
put_session-IsValid id s st v =
    update-IsValid id (λ x. record s { closed = x.closed }) st
      (λ x _ _. set_closed-IsConsistent x.closed s v) (λ x _. refl)

pub prune_key-closed : (key : ProviderSkillKey) (s : Session) → (prune_key key s).closed ≡ s.closed
unfolding prune_key
prune_key-closed key s = ground arith

prune_sessions-IsValid :
    (key : ProviderSkillKey) (l : List Item) (st : Store)
    → IsValid st
    → IsValid (prune_sessions key l st)
unfolding prune_sessions
prune_sessions-IsValid key [] st v = v
prune_sessions-IsValid key (it ∷ rest) st v = prune_sessions-IsValid key rest _ (
    ground (
      arith,
      v,
      update-IsValid it.s (prune_key key) st (λ s _. prune_key-IsConsistent key)
          (λ s _. prune_key-closed key s) v,
    ))

pub prune_skill-IsValid :
    (key : ProviderSkillKey) (st : Store) → IsValid st → IsValid (prune_skill key st)
unfolding prune_skill
prune_skill-IsValid key st = prune_sessions-IsValid key st.lru st

-- The generator's id is that of no session object made before.
abbrev pub IsNew : Bytes → Store → Type 0
IsNew id st = lookup id st.heap ≡ none

pub delete_elem-IsNew : (id j : Bytes) (st : Store) → IsNew id st → IsNew id (delete_elem j st)
unfolding delete_elem
delete_elem-IsNew id j st h = ground (arith, lookup-map_update j id close st.heap)

pub push_session-IsValid :
    (now : ℕ) (id : Bytes) (max_active : ℤ) (st : Store)
    → IsNew id st
    → IsValid st
    → IsValid (push_session now id max_active st)
unfolding push_session is_gone new_session
push_session-IsValid now id max_active st fresh v =
    let cfg : SessionConfig = record { id = id; max_active_per_session = max_active } in
    record {
      distinct = (ground (arith, v.live id), v.distinct);
      indexed = λ j. ground (arith, v.indexed j, v.indexed id, bytes_eq.beq_iff id j);
      live = λ j. ground (
        arith,
        lookup-map_insert id j (new_session cfg) st.heap,
        v.live j,
        v.live id,
        bytes_eq.beq_iff id j,
      );
      sound = λ j s e. elim (Bool-cases (id == j)) [
        | inl same ↦
            let e' : new_session cfg ≡ s =
              ground (arith, lookup-map_insert id j (new_session cfg) st.heap) in
            subst IsConsistent e' (new_session-IsConsistent cfg)
        | inr other ↦ v.sound j s (ground (arith, lookup-map_insert id j (new_session cfg) st.heap))
      ];
    }

pub register-IsValid :
    (now : ℕ) (id : Bytes) (max_active : ℤ) (st : Store)
    → IsNew id st
    → IsValid st
    → IsValid (register now id max_active st)
unfolding register
register-IsValid now id max_active st fresh v =
    let st' = evict_over_limit (evict_expired now st) in
    let fresh' : IsNew id st' =
      evict_over_limit_inv (IsNew id) (delete_elem-IsNew id) (evict_expired now st)
        (evict_expired_inv (IsNew id) (delete_elem-IsNew id) now st fresh) in
    let v' = evict_over_limit-IsValid _ (evict_expired-IsValid now st v) in
    evict_over_limit-IsValid _ (push_session-IsValid now id max_active st' fresh' v')
