-- ===== src/Tests/Stores.antt =====
-- A store of two sessions.
use agentskills_go.Base.{
  ℕ, Bytes, bytes_eq, false, [], ◌∷◌, none, some, codes, ◌≡◌, refl, arith, contains, if◌then◌else◌,
  take, keep, pos,
}
use agentskills_go.Catalog.Interface.{catalog_ops}
use agentskills_go.Catalog.State.{Catalog}
use agentskills_go.Session.Follows.{Follows, Rely, prune_keys-Follows}
use agentskills_go.Session.Consistent.{IsConsistent}
use agentskills_go.Session.State.{Session, prune_keys, is_active}
use agentskills_go.Session.Success.{quiet}
use agentskills_go.Spec.{Error, ok, key_eq}
use agentskills_go.Store.Create.{new_session_in-IsValid, new_session_in-failed, register-lru}
use agentskills_go.Store.Evict.{evict_expired-keep, evict_over_limit-take}
use agentskills_go.Store.Ops.{get, delete, register, new_session_in, NewSessionParams}
use agentskills_go.Store.Pruning.{prune_skill-inactive}
use agentskills_go.Store.Recent.{ids, IsRecent}
use agentskills_go.Store.State.{Store, new_store, remove, is_fresh, evict_expired, evict_over_limit}
use agentskills_go.Store.Uses.{get-found}
use agentskills_go.Store.Valid.{delete-IsValid, IsValid, new_store-IsValid, register-IsValid}
use agentskills_go.Tests.Data.{program, key_a, key_b, handle_a, providers, both}

abbrev ops : agentskills_go.Session.State.Catalog Catalog
ops = catalog_ops providers

abbrev pub id_s : Bytes
id_s = codes "s"

abbrev id_t : Bytes
id_t = codes "t"

abbrev empty : Store
empty = new_store (record { ttl = pos 10; max_sessions = pos 2; max_active_per_session = pos 2 })

abbrev one : Store
one = register 5 id_s (pos 2) empty

abbrev two : Store
two = register 8 id_t (pos 2) one

one-IsValid : IsValid one
unfolding program
one-IsValid = register-IsValid 5 id_s (pos 2) empty refl (new_store-IsValid empty.cfg)

two-IsValid : IsValid two
unfolding program
two-IsValid = register-IsValid 8 id_t (pos 2) one refl one-IsValid

two_sessions : ids two.lru ≡ id_t ∷ id_s ∷ []
unfolding program
two_sessions = refl

-- At 16 the session used at 5 has expired.
get_late : (get 16 id_s two).1 ≡ none
unfolding program
get_late = refl

two-IsRecent : IsRecent 8 two.lru
unfolding program
two-IsRecent = (omega arith, (omega arith, tt))

two-IsRecent_later : IsRecent 16 two.lru
unfolding program
two-IsRecent_later = (omega arith, (omega arith, tt))

evict_expired-keep_example : (evict_expired 16 two).lru ≡ keep (is_fresh two.ttl 16) two.lru
unfolding program
evict_expired-keep_example =
    evict_expired-keep 16 16 two refl two-IsRecent_later two-IsValid.distinct

evict_over_limit-take_example : (evict_over_limit two).lru ≡ take 2 two.lru
unfolding program
evict_over_limit-take_example = evict_over_limit-take 2 two (omega arith) refl two-IsValid.distinct

get-found_example :
    ((get 16 id_t two).1
      ≡ (if contains id_t (ids (keep (is_fresh two.ttl 16) two.lru)) then some id_t else none))
    × ((get 16 id_t two).0.lru ≡ (
        if contains id_t (ids (keep (is_fresh two.ttl 16) two.lru))
        then record { s = id_t; last_used = 16 } ∷ remove id_t (keep (is_fresh two.ttl 16) two.lru)
        else keep (is_fresh two.ttl 16) two.lru))
unfolding program
get-found_example = get-found 16 id_t two two-IsValid two-IsRecent_later refl

abbrev params : NewSessionParams
params = record { max_active_per_session = pos 0; active_keys = key_a ∷ [] }

-- the other goroutines leave the store alone
abbrev pub unchanged : Store → Store
unchanged st = st

abbrev pub started : Store
started = (new_session_in ops 5 6 (ok id_s) quiet unchanged none params (empty, both)).0.0

started_active :
    (new_session_in ops 5 6 (ok id_s) quiet unchanged none params (empty, both)).1
    ≡ ok (id_s, handle_a ∷ [])
unfolding program
started_active = refl

same-Follows : {s : Session} → IsConsistent s → Follows s s
unfolding prune_keys
same-Follows v = prune_keys-Follows v []

pub quiet-Rely : (n : ℕ) → Rely (quiet {C = Catalog} n)
quiet-Rely n = record {
  before = λ st v. same-Follows v;
  mid = λ st v. same-Follows v;
  late = λ st v. same-Follows v;
}

new_session_in-IsValid_example : IsValid started
unfolding program
new_session_in-IsValid_example =
    new_session_in-IsValid ops quiet quiet-Rely unchanged (λ st v. v) 5 6 (ok id_s) none params
      empty both (λ id e. refl) (new_store-IsValid empty.cfg)

-- The host closes the session while its skills are activated.
abbrev closed_meanwhile : Store
closed_meanwhile =
    (new_session_in ops 5 6 (ok id_s) quiet (delete id_s) none params (empty, both)).0.0

closed_meanwhile_gone : (get 7 id_s closed_meanwhile).1 ≡ none
unfolding program
closed_meanwhile_gone = refl

closed_meanwhile-IsValid : IsValid closed_meanwhile
unfolding program
closed_meanwhile-IsValid =
    new_session_in-IsValid ops quiet quiet-Rely (delete id_s) (delete-IsValid id_s) 5 6 (ok id_s)
      none params empty both (λ id e. refl) (new_store-IsValid empty.cfg)

-- The bound of one skill is exceeded.
abbrev too_small : NewSessionParams
too_small = record { max_active_per_session = pos 1; active_keys = key_a ∷ key_b ∷ [] }

new_session_in-failed_example :
    contains id_s
      (ids (new_session_in ops 5 6 (ok id_s) quiet unchanged none too_small (empty, both)).0.0.lru)
    ≡ false
unfolding program
new_session_in-failed_example =
    new_session_in-failed ops quiet quiet-Rely unchanged (λ st v. v) 5 6 id_s too_small empty both
      Error.invalid_argument refl (new_store-IsValid empty.cfg) refl

register-lru_example :
    (register 9 (codes "u") (pos 2) two).lru
    ≡ record { s = codes "u"; last_used = 9 } ∷ take 1 (keep (is_fresh two.ttl 9) two.lru)
unfolding program
register-lru_example =
    register-lru 1 9 (codes "u") (pos 2) two refl refl (omega arith, (omega arith, tt)) refl
      two-IsValid

abbrev pub left : Session
left = record {
  id = id_s;
  max_active = pos 2;
  active_order = [];
  active_set = [];
  state_version = 2;
  closed = false;
}

pub started-IsValid : IsValid started
unfolding program
started-IsValid =
    new_session_in-IsValid ops quiet quiet-Rely unchanged (λ st v. v) 5 6 (ok id_s) none params
      empty both (λ id e. refl) (new_store-IsValid empty.cfg)

prune_skill-inactive_example :
    (contains key_a left.active_order ≡ false) × (is_active left key_a ≡ false)
unfolding program
prune_skill-inactive_example =
    prune_skill-inactive key_a started id_s left started-IsValid refl refl
