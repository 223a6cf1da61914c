-- ===== src/Session/Activate.antt =====
-- `ActiveKeys` and `ActivateKeys`.
use agentskills_go.Base.{
  ℕ, zero, suc, Bytes, Bool, true, false, ◌&&◌, not, List, [], ◌∷◌, ◌++◌, Option, none, some,
  is_some, ◌==◌, bytes_eq, nat_beq, keep, contains, set_of, if◌then◌else◌,
}
use agentskills_go.Spec.{
  ProviderSkillKey, SkillHandle, key_eq, Result, ok, err, Error, Ctx, load_mode_replace,
  load_mode_add, skill_insert_instructions,
}
use agentskills_go.Artifact.Insert.{normalize_skill_insert}
use agentskills_go.Session.State.{
  Catalog, Session, next_version, is_empty, too_many, prune_keys, has_handle, missing_of,
  active_handles,
}
use agentskills_go.Text.{is_blank}

-- The next active order of the two modes.
unfoldable pub next_order :
    Bool
    → List ProviderSkillKey
    → List ProviderSkillKey
    → List ProviderSkillKey
    → List ProviderSkillKey
next_order true req current_order current_set = req
next_order false req current_order current_set =
    keep (λ k. not (contains k req) && contains k current_set) current_order ++ req

-- An empty mode is `replace`; `none` is any other text than `replace` and `add`, and the Boolean
-- tells whether the mode is `replace`.
unfoldable pub load_mode : Bytes → Option Bool
load_mode mode =
    let m = if is_blank mode then load_mode_replace else mode in
    if m == load_mode_replace then some true else if m == load_mode_add then some false else none

-- The session with a new active list, as the commit writes it.
abbrev pub activated : List ProviderSkillKey → Session → Session
activated order s = record s {
  active_set = set_of order;
  active_order = order;
  state_version = next_version s.state_version;
}

-- What a round of the retry loop comes to.
pub data Outcome : Type 0 where
  retry : Outcome
  done : Result (List SkillHandle) → Outcome

-- What the other goroutines do to the session and to the catalog while a round does not hold the
-- session's lock: before its snapshot, while it loads the bodies, and before its commit.
pub record Interference (C : Type 0) : Type 0 where
  pub before : Session × C → Session × C
  pub mid : Session × C → Session × C
  pub late : Session × C → Session × C

module _ {C : Type 0} (cat : Catalog C) where
  unfoldable pub is_known : C → ProviderSkillKey → Bool
  is_known c k = is_some (cat.get_index c k)

  -- The validation loop: the requested keys without repetitions; `req` holds those seen so far.
  unfoldable pub collect_keys :
      C → List ProviderSkillKey → List ProviderSkillKey → Result (List ProviderSkillKey)
  collect_keys c req [] = ok req
  collect_keys c req (k ∷ ks) =
      let skip = collect_keys c req ks in
      let take = collect_keys c (req ++ k ∷ []) ks in
      if contains k req then skip else elim (cat.get_index c k) [
        | none ↦ err Error.skill_not_found
        | some idx ↦
            if (normalize_skill_insert idx.insert).0 == skill_insert_instructions
            then take
            else err Error.invalid_argument
      ]

  -- Loads every body, and stops at the first failure.
  unfoldable pub ensure_bodies : Ctx → C → List ProviderSkillKey → C × Result (Unit {0})
  ensure_bodies ctx c [] = (c, ok tt)
  ensure_bodies ctx c (k ∷ ks) =
      let (c', body) = cat.ensure_body ctx c k in
      elim body [ ok _ ↦ ensure_bodies ctx c' ks | err e ↦ (c', err e) ]

  unfoldable pub all_known : C → List ProviderSkillKey → Bool
  all_known c [] = true
  all_known c (k ∷ ks) = is_known c k && all_known c ks

  -- `ActiveKeys`: `touch` is the store's callback, as it acts on this session, and `between` is what
  -- the other goroutines do to the session after the order is copied, since the lock is given up
  -- there, and before `pruneKeys` takes it again.
  unfoldable pub active_keys :
      (Session → Session)
      → (Session → Session)
      → Ctx
      → C
      → Session
      → Session × Result (List ProviderSkillKey)
  active_keys touch between (some e) c s = (s, err e)
  active_keys touch between none c s =
      let s' = touch s in
      if s'.closed then (s', err Error.session_not_found) else (
        prune_keys (missing_of cat c s'.active_order) (between s'),
        ok (keep (has_handle cat c) s'.active_order),
      )

  -- The commit, under the lock.
  unfoldable pub commit : ℕ → List ProviderSkillKey → C → Session → Session × Outcome
  commit snap_version order c s =
      if s.closed
      then (s, done (err Error.session_not_found))
      else if not (nat_beq s.state_version snap_version)
      then (s, retry)
      else let (s', handles) = active_handles cat c (activated order s) in (s', done (ok handles))

  -- One round of the loop, from the snapshot `s` on.
  unfoldable pub round_from :
      Ctx → Bool → List ProviderSkillKey → Interference C → Session × C → (Session × C) × Outcome
  round_from ctx replace req others (s, c) =
      let order = next_order replace req s.active_order s.active_set in
      let (s1, c1) = others.mid (s, c) in
      let (c2, loaded) = ensure_bodies ctx c1 order in
      let (s3, c3) = others.late (s1, c2) in
      let (s4, out) = commit s.state_version order c3 s3 in
      if s.closed
      then ((s, c), done (err Error.session_not_found))
      else if too_many s.max_active order
      then ((s, c), done (err Error.invalid_argument))
      else elim loaded [
        | err e ↦ ((s1, c2), done (err e))
        | ok _ ↦
            if all_known c2 order
            then ((s4, c3), out)
            else ((s1, c2), done (err Error.skill_not_found))
      ]

  -- `for range 5`: the first number counts the rounds left, and names what happens in a round.
  unfoldable pub retry_loop :
      ℕ
      → (ℕ → Interference C)
      → Ctx
      → Bool
      → List ProviderSkillKey
      → Session × C
      → (Session × C) × Result (List SkillHandle)
  retry_loop zero others ctx replace req st = (st, err Error.invalid_argument)
  retry_loop (suc n) others ctx replace req st =
      let (st', out) = round_from ctx replace req (others n) ((others n).before st) in
      elim out [ done r ↦ (st', r) | retry ↦ retry_loop n others ctx replace req st' ]

  -- `ActivateKeys`
  unfoldable pub activate_keys :
      (Session → Session)
      → (ℕ → Interference C)
      → Ctx
      → List ProviderSkillKey
      → Bytes
      → Session × C
      → (Session × C) × Result (List SkillHandle)
  activate_keys touch others (some e) keys mode st = (st, err e)
  activate_keys touch others none keys mode (s, c) =
      let s' = touch s in
      if s'.closed then ((s', c), err Error.session_not_found) else elim (load_mode mode) [
        | none ↦ ((s', c), err Error.invalid_argument)
        | some replace ↦
            if is_empty keys
            then ((s', c), err Error.invalid_argument)
            else elim (collect_keys c [] keys) [
              | err e ↦ ((s', c), err e)
              | ok req ↦ retry_loop 5 others none replace req (s', c)
            ]
      ]
