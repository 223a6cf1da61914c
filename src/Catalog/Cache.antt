-- ===== src/Catalog/Cache.antt =====
-- `EnsureBody` alone: what it caches, and what it leaves.
use agentskills_go.Base.{
  ℕ, Bytes, bytes_eq, nat_eq, true, false, none, some, ◌==◌, ==_refl, ◌≡◌, ◌∙◌, refl, ap, arith,
  inl, inr, Bool-cases, Option-cases, lookup, map_update, lookup-map_update, if◌then◌else◌, codes,
}
use agentskills_go.Catalog.Body.{
  Around, publish, is_context_error, finish_body_load, load_body, load_as, ensure_rounds,
  ensure_body,
}
use agentskills_go.Catalog.State.{Entry, Catalog}
use agentskills_go.Spec.{Error, Result, ok, err, ProviderSkillKey, ProviderResolver, key_eq}

-- No other goroutine does anything, and the context stays live.
abbrev pub alone : ℕ → Around
alone n = record { ctx = none; before = λ c. c; waiting = λ c. (c, none); loading = λ c. c }

-- The entry after a load alone: its channel is gone again, and the result is published.
abbrev pub loaded : Result Bytes → ℕ → Entry → Entry
loaded r ch e = publish ch r (record e { body_wait = some ch })

loaded_ok :
    (body : Bytes) (ch : ℕ) (e : Entry)
    → ((loaded (ok body) ch e).body_loaded ≡ true) × ((loaded (ok body) ch e).idx.skill_body ≡ body)
unfolding publish
loaded_ok body ch e = (refl, refl)

module _ {Out : Type 0} (providers : ProviderResolver Out) where
  load_as-lookup :
      (e : Entry) (key j : ProviderSkillKey) (c : Catalog)
      → lookup key c.by_key ≡ some e
      → lookup j (load_as providers e key (λ x. x) c).0.by_key ≡ (
          if key == j
          then some (loaded (load_body providers e.idx.key) c.next_chan e)
          else lookup j c.by_key)
  unfolding load_as finish_body_load
  load_as-lookup e key j c at =
      let ch = c.next_chan in
      let m1 = map_update key (λ x. record x { body_wait = some ch }) c.by_key in
      let here = lookup-map_update key key (λ x. record x { body_wait = some ch }) c.by_key in
      ground (
        arith,
        at,
        here,
        ==_refl key,
        ==_refl ch,
        lookup-map_update key j (λ x. record x { body_wait = some ch }) c.by_key,
        lookup-map_update key j (publish ch (load_body providers e.idx.key)) m1,
        key_eq.beq_iff key j,
      )

  ensure_body_missing :
      (key : ProviderSkillKey) (c : Catalog)
      → lookup key c.by_key ≡ none
      → ensure_body providers alone none key c ≡ (c, err Error.skill_not_found)
  unfolding ensure_body ensure_rounds
  ensure_body_missing key c miss = ground arith

  load_as-result :
      (e : Entry) (key : ProviderSkillKey) (c : Catalog)
      → (load_as providers e key (λ x. x) c).1 ≡ load_body providers e.idx.key
  unfolding load_as
  load_as-result e key c = refl

  -- What a call alone comes to on an entry: the cached body, the cached error, an error after five
  -- rounds if a load of somebody else never ends, or a load of its own.
  pub settle : Entry → ProviderSkillKey → Catalog → Catalog × Result Bytes
  settle e key c = if e.body_loaded then (c, ok e.idx.skill_body) else elim e.body_err [
    | some x ↦ (c, err x)
    | none ↦ elim e.body_wait [
      | some ch ↦ (c, err (Error.other (codes "could not ensure skill body")))
      | none ↦ load_as providers e key (λ x. x) c
    ]
  ]

  pub ensure_body-settle :
      (key : ProviderSkillKey) (c : Catalog) (e : Entry)
      → lookup key c.by_key ≡ some e
      → ensure_body providers alone none key c ≡ settle e key c
  unfolding ensure_body ensure_rounds settle
  ensure_body-settle key c e at = ground arith

-- A body that `EnsureBody`, alone and under a live context, has returned is served again by the
-- next call, whatever the providers would answer then, and serving it changes nothing.
pub ensure_body_cached :
    {Out : Type 0} (providers others : ProviderResolver Out) (key : ProviderSkillKey)
    (c c' : Catalog) (body : Bytes)
    → ensure_body providers alone none key c ≡ (c', ok body)
    → ensure_body others alone none key c' ≡ (c', ok body)
unfolding settle
ensure_body_cached providers others key c c' body h = elim (Option-cases (lookup key c.by_key)) [
  | inl miss ↦ absurd (ground (arith, ensure_body_missing providers key c))
  | inr (e, at) ↦
      let s = ensure_body-settle providers key c e at in
      let after = load_as-lookup providers e key key c at in
      let r = load_as-result providers e key c in
      elim (Bool-cases e.body_loaded) [
        | inl old ↦
            let same : c ≡ c' = ground arith in
            rw (← same) (ensure_body-settle others key c e at ∙ ground arith)
        | inr new ↦
            let e' = loaded (load_body providers e.idx.key) c.next_chan e in
            let c'_load : (load_as providers e key (λ x. x) c).0 ≡ c' = ground arith in
            let load_ok : load_body providers e.idx.key ≡ ok body = ground arith in
            ensure_body-settle others key c' e'
              (rw (← c'_load) (after ∙ ground (arith, ==_refl key)))
            ∙ ground (arith, loaded_ok body c.next_chan e)
      ]
]

settle_failed :
    {Out : Type 0} (others : ProviderResolver Out) (key : ProviderSkillKey) (d : Catalog)
    (e : Entry) (ch : ℕ) (x : Error)
    → e.body_loaded ≡ false
    → e.body_err ≡ none
    → (settle others (loaded (err x) ch e) key d).1
      ≡ (if is_context_error x then load_body others e.idx.key else err x)
unfolding settle publish load_as
settle_failed others key d e ch x new clean = ground arith

-- Alone, for an entry with no body, no error and no load in flight, a provider's error is kept and
-- returned by the next call whatever the providers would answer then, unless it only says that the
-- context ended: then the next call asks the providers again.
pub ensure_body_failed :
    {Out : Type 0} (providers others : ProviderResolver Out) (key : ProviderSkillKey) (c : Catalog)
    (e : Entry) (x : Error)
    → lookup key c.by_key ≡ some e
    → e.body_loaded ≡ false
    → e.body_err ≡ none
    → e.body_wait ≡ none
    → load_body providers e.idx.key ≡ err x
    → let c' = (ensure_body providers alone none key c).0 in
      (ensure_body others alone none key c').1
      ≡ (if is_context_error x then load_body others e.idx.key else err x)
unfolding settle
ensure_body_failed providers others key c e x at new clean free fails =
    let d = (load_as providers e key (λ x. x) c).0 in
    let e' = loaded (load_body providers e.idx.key) c.next_chan e in
    let s1 : ensure_body providers alone none key c ≡ load_as providers e key (λ x. x) c =
      ensure_body-settle providers key c e at ∙ ground arith in
    let at' : lookup key d.by_key ≡ some e' =
      load_as-lookup providers e key key c at ∙ ground (arith, ==_refl key) in
    rw s1 (
      ap (λ (o : Catalog × Result Bytes). o.1) (ensure_body-settle others key d e' at')
      ∙ ap (λ r. (settle others (loaded r c.next_chan e) key d).1) fails
      ∙ settle_failed others key d e c.next_chan x new clean)
