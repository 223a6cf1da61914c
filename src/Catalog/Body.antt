-- ===== src/Catalog/Body.antt =====
-- `EnsureBody` and `finishBodyLoad`: one load at a time for each skill.
use agentskills_go.Base.{
  ℕ, zero, suc, ◌+◌, Bytes, bytes_eq, nat_eq, Bool, true, false, Option, none, some, ◌==◌, lookup,
  map_update, if◌then◌else◌, codes,
}
use agentskills_go.Catalog.State.{Entry, Catalog}
use agentskills_go.Spec.{Error, Result, ok, err, Ctx, ProviderSkillKey, ProviderResolver, key_eq}

-- `errors.Is(err, context.Canceled) || errors.Is(err, context.DeadlineExceeded)`
abbrev pub is_context_error : Error → Bool
is_context_error Error.context_canceled = true
is_context_error Error.deadline_exceeded = true
is_context_error _ = false

-- The entry after the load of the channel `ch` has ended.
unfoldable pub publish : ℕ → Result Bytes → Entry → Entry
publish ch (ok body) e = record e {
  body_wait = none;
  idx = record (e.idx) { skill_body = body };
  body_loaded = true;
  body_err = none;
}
publish ch (err x) e =
    if is_context_error x
    then record e { body_wait = none }
    else record e { body_wait = none; body_err = some x }

-- whether the load of this channel is the one in flight
abbrev pub waits_on : ℕ → Entry → Bool
waits_on ch e = elim e.body_wait [ none ↦ false | some other ↦ other == ch ]

unfoldable pub finish_body_load : ProviderSkillKey → ℕ → Result Bytes → Catalog → Catalog
finish_body_load key ch r c = elim (lookup key c.by_key) [
  | none ↦ c
  | some e ↦
      if waits_on ch e then record c { by_key = map_update key (publish ch r) c.by_key } else c
]

-- What happens around a round: the context as the round asks it, what the other goroutines do
-- before it takes the lock, while it waits for another load (with the context's error, if that ends
-- the wait), and while it loads.
pub record Around : Type 0 where
  pub ctx : Ctx
  pub before : Catalog → Catalog
  pub waiting : Catalog → Catalog × Option Error
  pub loading : Catalog → Catalog

module _ {Out : Type 0} (providers : ProviderResolver Out) where
  -- The provider's answer: `LoadBody`, or no such provider.
  unfoldable pub load_body : ProviderSkillKey → Result Bytes
  load_body key = elim (providers key.type) [
    | none ↦ err Error.provider_not_found
    | some p ↦ p.load_body none key
  ]

  -- The entry becomes the loader of a new channel, loads, and publishes.
  unfoldable pub load_as :
      Entry → ProviderSkillKey → (Catalog → Catalog) → Catalog → Catalog × Result Bytes
  load_as e key loading c =
      let ch = c.next_chan in
      let c1 = record c {
        by_key = map_update key (λ x. record x { body_wait = some ch }) c.by_key;
        next_chan = ch + 1;
      } in
      let r = load_body e.idx.key in (finish_body_load key ch r (loading c1), r)

  -- `for range 5`: the first number counts the rounds left, and names what happens around one.
  unfoldable pub ensure_rounds :
      ℕ → (ℕ → Around) → ProviderSkillKey → Catalog → Catalog × Result Bytes
  ensure_rounds zero around key c = (c, err (Error.other (codes "could not ensure skill body")))
  ensure_rounds (suc n) around key c0 =
      let c = (around n).before c0 in
      let (c', stop) = (around n).waiting c in
      let again = ensure_rounds n around key c' in
      elim (around n).ctx [
        | some x ↦ (c0, err x)
        | none ↦ elim (lookup key c.by_key) [
          | none ↦ (c, err Error.skill_not_found)
          | some e ↦ if e.body_loaded then (c, ok e.idx.skill_body) else elim e.body_err [
            | some x ↦ (c, err x)
            | none ↦ elim e.body_wait [
              | some ch ↦ elim stop [ some x ↦ (c', err x) | none ↦ again ]
              | none ↦ load_as e key (around n).loading c
            ]
          ]
        ]
      ]

  -- `EnsureBody`
  unfoldable pub ensure_body :
      (ℕ → Around) → Ctx → ProviderSkillKey → Catalog → Catalog × Result Bytes
  ensure_body around (some x) key c = (c, err x)
  ensure_body around none key c = ensure_rounds 5 around key c
