-- ===== src/Runtime/Providers.antt =====
-- The providers that `New` accepts.
use agentskills_go.Base.{
  Bytes, bytes_eq, false, ◌||◌, List, [], ◌∷◌, Option, none, some, is_some, ◌≡◌, ◌∙◌, refl, sym, ap,
  subst, arith, inl, inr, Bool-cases, ◌==◌, lookup, keys, map_insert, lookup-map_insert,
  is_some-lookup, contains, contains-append, IsDistinct, true, ◌++◌, append_assoc, append-nil,
  ==_refl,
}
use agentskills_go.Runtime.New.{
  GivenProviders, Providers, RuntimeOption, RuntimeOptions, with_provider, with_providers_by_type,
  with_max_active_per_session, with_session_ttl, with_max_sessions, apply_option, copy_providers,
  add_providers, add_typed_providers, providers_of, apply_options, default_options, new_runtime,
  provider_types,
}
use agentskills_go.Runtime.State.{Runtime}
use agentskills_go.Spec.{Result-cases, ok, SkillProvider}
use agentskills_go.Text.Sort.{IsAscending, sort_strings-IsAscending, contains-sort_strings}

contains-keys :
    {V : Type 0} (t j : Bytes) (p : V) (ps : List (Bytes × V))
    → contains j (keys (map_insert t p ps)) ≡ (t == j || contains j (keys ps))
contains-keys t j p ps =
    sym (is_some-lookup j (map_insert t p ps))
    ∙ ap is_some (lookup-map_insert t j p ps)
    ∙ ground (arith, is_some-lookup j ps)

module _ {Out : Type 0} where
  -- Each provider is registered once, under its own type, which is not empty.
  pub record AreTyped (ps : Providers Out) : Type 0 where
    pub distinct : IsDistinct (keys ps)
    pub typed :
        (t : Bytes) (p : SkillProvider Out)
        → lookup t ps ≡ some p
        → (p.type ≡ t) × ((t == []) ≡ false)

  keys-IsDistinct :
      (t : Bytes) (p : SkillProvider Out) (ps : Providers Out)
      → IsDistinct (keys ps)
      → IsDistinct (keys (map_insert t p ps))
  keys-IsDistinct t p [] d = (refl, tt)
  keys-IsDistinct t p ((j, w) ∷ ps) d = ground (
    arith,
    d.0,
    d.1,
    keys-IsDistinct t p ps d.1,
    contains-keys t j p ps,
    bytes_eq.beq_iff j t,
    bytes_eq.beq_iff t j,
  )

  map_insert-AreTyped :
      (t : Bytes) (p : SkillProvider Out) (ps : Providers Out)
      → AreTyped ps
      → p.type ≡ t
      → (t == []) ≡ false
      → AreTyped (map_insert t p ps)
  map_insert-AreTyped t p ps a e n = record {
    distinct = keys-IsDistinct t p ps a.distinct;
    typed = λ j q h. elim (Bool-cases (t == j)) [
      | inl same ↦
          let t' : t ≡ j = (bytes_eq.beq_iff t j).0 same in
          let at : some p ≡ some q = ground (arith, lookup-map_insert t j p ps) in
          let p' : p ≡ q = ap (λ o. elim o [ none ↦ p | some x ↦ x ]) at in
          (sym (ap (λ x. x.type) p') ∙ e ∙ t', sym (ap (λ x. x == []) t') ∙ n)
      | inr other ↦ a.typed j q (ground (arith, lookup-map_insert t j p ps))
    ];
  }

  add_providers-AreTyped :
      (ps ps' : Providers Out) (given : List (Option (SkillProvider Out)))
      → AreTyped ps
      → add_providers ps given ≡ ok ps'
      → AreTyped ps'
  unfolding add_providers
  add_providers-AreTyped ps ps' [] a h = subst AreTyped (ground arith) a
  add_providers-AreTyped ps ps' (none ∷ given) a h = absurd (ground arith)
  add_providers-AreTyped ps ps' (some p ∷ given) a h =
      add_providers-AreTyped (map_insert p.type p ps) ps' given
        (map_insert-AreTyped p.type p ps a refl (ground arith)) (ground arith)

  add_typed_providers-AreTyped :
      (ps ps' : Providers Out) (given : GivenProviders Out)
      → AreTyped ps
      → add_typed_providers ps given ≡ ok ps'
      → AreTyped ps'
  unfolding add_typed_providers
  add_typed_providers-AreTyped ps ps' [] a h = subst AreTyped (ground arith) a
  add_typed_providers-AreTyped ps ps' ((t, none) ∷ given) a h = absurd (ground arith)
  add_typed_providers-AreTyped ps ps' ((t, some p) ∷ given) a h =
      add_typed_providers-AreTyped (map_insert t p ps) ps' given
        (map_insert-AreTyped t p ps a (ground (arith, bytes_eq.beq_iff p.type t)) (ground arith))
        (ground arith)

  none-AreTyped : AreTyped []
  none-AreTyped = record { distinct = tt; typed = λ t p h. absurd (ground arith) }

  providers_of-AreTyped :
      (opts : List (Option (RuntimeOption Out))) (ps : Providers Out)
      → providers_of (apply_options opts default_options) ≡ ok ps
      → AreTyped ps
  unfolding providers_of
  providers_of-AreTyped opts ps h =
      let cfg = apply_options opts default_options in
      elim (Result-cases (add_providers [] cfg.providers)) [
        | inl (first, e) ↦
            add_typed_providers-AreTyped first ps cfg.providers_by_type
              (add_providers-AreTyped [] first cfg.providers none-AreTyped e) (ground arith)
        | inr (x, e) ↦ absurd (ground arith)
      ]

  -- The providers of the `WithProvider` options, in order.
  abbrev pub provided : List (Option (RuntimeOption Out)) → List (Option (SkillProvider Out))
  provided [] = []
  provided (none ∷ opts) = provided opts
  provided (some (with_provider p) ∷ opts) = p ∷ provided opts
  provided (some (with_providers_by_type m) ∷ opts) = provided opts
  provided (some (with_max_active_per_session n) ∷ opts) = provided opts
  provided (some (with_session_ttl ttl) ∷ opts) = provided opts
  provided (some (with_max_sessions n) ∷ opts) = provided opts

  abbrev pub types_of : List (Option (SkillProvider Out)) → List Bytes
  types_of [] = []
  types_of (none ∷ given) = types_of given
  types_of (some p ∷ given) = p.type ∷ types_of given

  -- None of the providers is nil, and each is registered under its type.
  abbrev pub AreRegistered : Providers Out → List (Option (SkillProvider Out)) → Type 0
  AreRegistered ps [] = Unit {0}
  AreRegistered ps (none ∷ given) = false ≡ true
  AreRegistered ps (some p ∷ given) = (lookup p.type ps ≡ some p) × AreRegistered ps given

  -- None of the providers is nil, and each is registered under the type that it is given for.
  abbrev pub AreRegisteredByType : Providers Out → GivenProviders Out → Type 0
  AreRegisteredByType ps [] = Unit {0}
  AreRegisteredByType ps ((t, none) ∷ given) = false ≡ true
  AreRegisteredByType ps ((t, some p) ∷ given) =
      (lookup t ps ≡ some p) × AreRegisteredByType ps given

  abbrev Extends : Providers Out → Providers Out → Type 0
  Extends ps ps' =
      (t : Bytes) (p : SkillProvider Out) → lookup t ps ≡ some p → lookup t ps' ≡ some p

  map_insert-Extends :
      (t : Bytes) (p : SkillProvider Out) (ps : Providers Out)
      → is_some (lookup t ps) ≡ false
      → Extends ps (map_insert t p ps)
  map_insert-Extends t p ps new j q h =
      ground (arith, lookup-map_insert t j p ps, bytes_eq.beq_iff t j)

  lookup-inserted :
      (t : Bytes) (p : SkillProvider Out) (ps : Providers Out)
      → lookup t (map_insert t p ps) ≡ some p
  lookup-inserted t p ps = ground (arith, lookup-map_insert t t p ps, ==_refl t)

  add_providers-Extends :
      (ps ps' : Providers Out) (given : List (Option (SkillProvider Out)))
      → add_providers ps given ≡ ok ps'
      → Extends ps ps'
        × AreRegistered ps' given
        × ((t : Bytes)
            → contains t (keys ps') ≡ (contains t (keys ps) || contains t (types_of given)))
  unfolding add_providers
  add_providers-Extends ps ps' [] h =
      let same : ps ≡ ps' = ground arith in
      (
        subst (Extends ps) same (λ t p e. e),
        tt,
        λ t. ap (λ x. contains t (keys x)) (sym same) ∙ ground arith,
      )
  add_providers-Extends ps ps' (none ∷ given) h = absurd (ground arith)
  add_providers-Extends ps ps' (some p ∷ given) h =
      let new : is_some (lookup p.type ps) ≡ false = ground arith in
      let (ext, reg, all) =
        add_providers-Extends (map_insert p.type p ps) ps' given (ground arith) in
      (
        (λ t q e. ext t q (map_insert-Extends p.type p ps new t q e)),
        (ext p.type p (lookup-inserted p.type p ps), reg),
        λ t. ground (arith, all t, contains-keys p.type t p ps, bytes_eq.beq_iff p.type t),
      )

  add_typed_providers-Extends :
      (ps ps' : Providers Out) (given : GivenProviders Out)
      → add_typed_providers ps given ≡ ok ps'
      → Extends ps ps'
        × AreRegisteredByType ps' given
        × ((t : Bytes) → contains t (keys ps') ≡ (contains t (keys ps) || contains t (keys given)))
  unfolding add_typed_providers
  add_typed_providers-Extends ps ps' [] h =
      let same : ps ≡ ps' = ground arith in
      (
        subst (Extends ps) same (λ t p e. e),
        tt,
        λ t. ap (λ x. contains t (keys x)) (sym same) ∙ ground arith,
      )
  add_typed_providers-Extends ps ps' ((t, none) ∷ given) h = absurd (ground arith)
  add_typed_providers-Extends ps ps' ((t, some p) ∷ given) h =
      let new : is_some (lookup t ps) ≡ false = ground arith in
      let (ext, reg, all) =
        add_typed_providers-Extends (map_insert t p ps) ps' given (ground arith) in
      (
        (λ j q e. ext j q (map_insert-Extends t p ps new j q e)),
        (ext t p (lookup-inserted t p ps), reg),
        λ j. ground (arith, all j, contains-keys t j p ps, bytes_eq.beq_iff t j),
      )

  AreRegistered-Extends :
      (ps ps' : Providers Out) (given : List (Option (SkillProvider Out)))
      → Extends ps ps'
      → AreRegistered ps given
      → AreRegistered ps' given
  AreRegistered-Extends ps ps' [] ext r = tt
  AreRegistered-Extends ps ps' (none ∷ given) ext r = r
  AreRegistered-Extends ps ps' (some p ∷ given) ext (at, r) =
      (ext p.type p at, AreRegistered-Extends ps ps' given ext r)

  apply_options-provided :
      (opts : List (Option (RuntimeOption Out))) (cfg : RuntimeOptions Out)
      → (apply_options opts cfg).providers ≡ cfg.providers ++ provided opts
  unfolding apply_options apply_option
  apply_options-provided [] cfg = sym (append-nil cfg.providers)
  apply_options-provided (none ∷ opts) cfg = apply_options-provided opts cfg
  apply_options-provided (some (with_provider p) ∷ opts) cfg =
      apply_options-provided opts _ ∙ append_assoc cfg.providers (p ∷ []) (provided opts)
  apply_options-provided (some (with_providers_by_type m) ∷ opts) cfg =
      apply_options-provided opts _
  apply_options-provided (some (with_max_active_per_session n) ∷ opts) cfg =
      apply_options-provided opts _
  apply_options-provided (some (with_session_ttl ttl) ∷ opts) cfg = apply_options-provided opts _
  apply_options-provided (some (with_max_sessions n) ∷ opts) cfg = apply_options-provided opts _

  -- The types in the maps of the `WithProvidersByType` options.
  abbrev pub types_by_type : List (Option (RuntimeOption Out)) → List Bytes
  types_by_type [] = []
  types_by_type (none ∷ opts) = types_by_type opts
  types_by_type (some (with_provider p) ∷ opts) = types_by_type opts
  types_by_type (some (with_providers_by_type m) ∷ opts) = keys m ++ types_by_type opts
  types_by_type (some (with_max_active_per_session n) ∷ opts) = types_by_type opts
  types_by_type (some (with_session_ttl ttl) ∷ opts) = types_by_type opts
  types_by_type (some (with_max_sessions n) ∷ opts) = types_by_type opts

  contains-copy_providers :
      (t : Bytes) (dst src : GivenProviders Out)
      → contains t (keys (copy_providers dst src))
        ≡ (contains t (keys dst) || contains t (keys src))
  unfolding copy_providers
  contains-copy_providers t dst [] = ground arith
  contains-copy_providers t dst ((j, p) ∷ src) =
      ground (arith, contains-copy_providers t (map_insert j p dst) src, contains-keys j t p dst)

  contains-apply_options :
      (t : Bytes) (opts : List (Option (RuntimeOption Out))) (cfg : RuntimeOptions Out)
      → contains t (keys (apply_options opts cfg).providers_by_type)
        ≡ (contains t (keys cfg.providers_by_type) || contains t (types_by_type opts))
  unfolding apply_options apply_option
  contains-apply_options t [] cfg = ground arith
  contains-apply_options t (none ∷ opts) cfg = contains-apply_options t opts cfg
  contains-apply_options t (some (with_provider p) ∷ opts) cfg = contains-apply_options t opts _
  contains-apply_options t (some (with_providers_by_type m) ∷ opts) cfg =
      contains-apply_options t opts _
      ∙ ground (
        arith,
        contains-copy_providers t cfg.providers_by_type m,
        contains-append t (keys m) (types_by_type opts),
      )
  contains-apply_options t (some (with_max_active_per_session n) ∷ opts) cfg =
      contains-apply_options t opts _
  contains-apply_options t (some (with_session_ttl ttl) ∷ opts) cfg =
      contains-apply_options t opts _
  contains-apply_options t (some (with_max_sessions n) ∷ opts) cfg = contains-apply_options t opts _

  -- What `New` registers, of the options given.
  pub record RegistersAll (opts : List (Option (RuntimeOption Out))) (ps : Providers Out)
      : Type 0 where
    pub each : AreRegistered ps (provided opts)
    pub each_by_type : AreRegisteredByType ps (apply_options opts default_options).providers_by_type
    pub listed :
        (t : Bytes)
        → contains t (provider_types ps)
          ≡ (contains t (types_of (provided opts)) || contains t (types_by_type opts))

  providers_of-RegistersAll :
      (opts : List (Option (RuntimeOption Out))) (ps : Providers Out)
      → providers_of (apply_options opts default_options) ≡ ok ps
      → RegistersAll opts ps
  unfolding providers_of provider_types default_options
  providers_of-RegistersAll opts ps h =
      let cfg = apply_options opts default_options in
      let given : cfg.providers ≡ provided opts = apply_options-provided opts default_options in
      elim (Result-cases (add_providers [] cfg.providers)) [
        | inl (first, e) ↦
            let e' : add_providers [] (provided opts) ≡ ok first =
              ap (add_providers []) (sym given) ∙ e in
            let (_, reg, all) = add_providers-Extends [] first (provided opts) e' in
            let (ext, reg', all') =
              add_typed_providers-Extends first ps cfg.providers_by_type (ground arith) in
            record {
              each = AreRegistered-Extends first ps (provided opts) ext reg;
              each_by_type = reg';
              listed = λ t. ground (
                arith,
                contains-sort_strings t (keys ps),
                all t,
                all' t,
                contains-apply_options t opts default_options,
              );
            }
        | inr (x, e) ↦ absurd (ground arith)
      ]

  -- Where `New` succeeds, each provider is registered once, under its own type, which is not empty;
  -- no provider of the options is nil; each one of a `WithProvider`, and each of the map that the
  -- `WithProvidersByType` options build, is registered; and `ProviderTypes` lists the types that the
  -- options give and no others, in ascending order, each once.
  pub new_runtime-AreTyped :
      (opts : List (Option (RuntimeOption Out))) (rt : Runtime) (ps : Providers Out)
      → new_runtime opts ≡ ok (rt, ps)
      → AreTyped ps × RegistersAll opts ps × IsAscending (provider_types ps)
  unfolding new_runtime provider_types
  new_runtime-AreTyped opts rt ps h =
      elim (Result-cases (providers_of (apply_options opts default_options))) [
        | inl (qs, e) ↦
            let same : qs ≡ ps = ground arith in
            let a = subst AreTyped same (providers_of-AreTyped opts qs e) in
            (
              a,
              subst (RegistersAll opts) same (providers_of-RegistersAll opts qs e),
              sort_strings-IsAscending (keys ps) a.distinct,
            )
        | inr (x, e) ↦ absurd (ground arith)
      ]
