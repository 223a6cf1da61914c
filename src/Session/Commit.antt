-- ===== src/Session/Commit.antt =====
-- The plan of `ActivateKeys` and its commit keep the invariant of a session.
use agentskills_go.Base.{
  ℕ, Bool, true, false, ◌&&◌, ◌||◌, not, List, [], ◌∷◌, ◌++◌, ◌≡◌, refl, arith, contains, keep,
  IsDistinct, contains-keep, contains-append, keep-IsDistinct, append-IsDistinct,
}
use agentskills_go.Session.Activate.{next_order, collect_keys, commit, activated}
use agentskills_go.Session.Consistent.{
  IsConsistent, activated-IsConsistent, active_handles-IsConsistent,
}
use agentskills_go.Session.State.{Catalog, Session, too_many}
use agentskills_go.Spec.{ProviderSkillKey, key_eq, ok}

-- Neither mode repeats a key.
pub next_order-IsDistinct :
    (replace : Bool) (req order set : List ProviderSkillKey)
    → IsDistinct req
    → IsDistinct order
    → IsDistinct (next_order replace req order set)
unfolding next_order
next_order-IsDistinct true req order set dr do' = dr
next_order-IsDistinct false req order set dr do' =
    append-IsDistinct _ req
      (keep-IsDistinct (λ k. not (contains k req) && contains k set) order do') dr
      (λ k h. ground (arith, contains-keep (λ k. not (contains k req) && contains k set) k order))

-- In the order that mode `add` plans, a key stands exactly if it was in both the order and the set
-- of the snapshot, or was asked for.
pub contains-next_order :
    (req order set : List ProviderSkillKey) (k : ProviderSkillKey)
    → contains k (next_order false req order set)
      ≡ (contains k req || (contains k order && contains k set))
unfolding next_order
contains-next_order req order set k = ground (
  arith,
  contains-append k (keep (λ k. not (contains k req) && contains k set) order) req,
  contains-keep (λ k. not (contains k req) && contains k set) k order,
)

append_new-IsDistinct :
    (k : ProviderSkillKey) (xs : List ProviderSkillKey)
    → IsDistinct xs
    → contains k xs ≡ false
    → IsDistinct (xs ++ k ∷ [])
append_new-IsDistinct k xs d new =
    append-IsDistinct xs (k ∷ []) d (refl, tt) (λ a h. ground (arith, key_eq.beq_iff k a))

module _ {C : Type 0} (cat : Catalog C) (c : C) where
  -- The validated request holds no key twice.
  pub collect_keys-IsDistinct :
      (req ks : List ProviderSkillKey) {out : List ProviderSkillKey}
      → IsDistinct req
      → collect_keys cat c req ks ≡ ok out
      → IsDistinct out
  unfolding collect_keys
  collect_keys-IsDistinct req [] d h = ground arith
  collect_keys-IsDistinct req (k ∷ ks) {out} d h = ground (
    arith,
    collect_keys-IsDistinct req ks {out = out} d,
    λ (new : contains k req ≡ false).
        collect_keys-IsDistinct (req ++ k ∷ []) ks {out = out} (append_new-IsDistinct k req d new),
  )

  pub commit-IsConsistent :
      (v : ℕ) (order : List ProviderSkillKey) {s : Session}
      → IsConsistent s
      → IsDistinct order
      → too_many s.max_active order ≡ false
      → IsConsistent (commit cat v order c s).0
  unfolding commit
  commit-IsConsistent v order {s} valid d within = ground (
    arith,
    active_handles-IsConsistent cat c {s = activated order s}
        (activated-IsConsistent order s d within),
  )
