-- ===== src/Catalog/Loading.antt =====
-- Loading a body changes no definition and no key.
use Prim.Native.Nat.{ℕ}
use agentskills_go.Base.{
  zero, suc, Bytes, none, some, ◌≡◌, refl, arith, inl, inr, Bool-cases, Option-cases, lookup,
  map_update, lookup-map_update, ◌==◌,
}
use agentskills_go.Catalog.Body.{
  Around, publish, finish_body_load, load_as, ensure_rounds, ensure_body,
}
use agentskills_go.Catalog.Changes.{IsLinked}
use agentskills_go.Catalog.State.{Entry, Catalog}
use agentskills_go.Spec.{Result, ok, err, Ctx, ProviderSkillKey, ProviderResolver, key_eq}

-- The other goroutines keep the catalog linked.
pub record KeepsLinked (around : Around) : Type 0 where
  pub before : (c : Catalog) → IsLinked c → IsLinked (around.before c)
  pub waiting : (c : Catalog) → IsLinked c → IsLinked (around.waiting c).0
  pub loading : (c : Catalog) → IsLinked c → IsLinked (around.loading c)

update-IsLinked :
    (f : Entry → Entry) (key : ProviderSkillKey) (c : Catalog) (n : ℕ)
    → ((e : Entry) → ((f e).def ≡ e.def) × ((f e).idx.key ≡ e.idx.key))
    → IsLinked c
    → IsLinked (record c { by_key = map_update key f c.by_key; next_chan = n })
update-IsLinked f key c n same v = record {
  entry_of = λ d k h.
      let (e, at, own) = v.entry_of d k h in
      elim (Bool-cases (key == k)) [
        | inl hit ↦
            (f e, ground (arith, lookup-map_update key k f c.by_key), ground (arith, (same e).0))
        | inr miss ↦ (e, ground (arith, lookup-map_update key k f c.by_key), own)
      ];
  def_of = λ k e h. elim (Option-cases (lookup k c.by_key)) [
    | inl miss ↦ absurd (ground (arith, lookup-map_update key k f c.by_key))
    | inr (old, at) ↦
        ground (arith, lookup-map_update key k f c.by_key, v.def_of k old at, same old)
  ];
}

publish_same :
    (ch : ℕ) (r : Result Bytes) (e : Entry)
    → ((publish ch r e).def ≡ e.def) × ((publish ch r e).idx.key ≡ e.idx.key)
unfolding publish
publish_same ch (ok b) e = (refl, refl)
publish_same ch (err x) e = (ground arith, ground arith)

finish_body_load-IsLinked :
    (key : ProviderSkillKey) (ch : ℕ) (r : Result Bytes) (c : Catalog)
    → IsLinked c
    → IsLinked (finish_body_load key ch r c)
unfolding finish_body_load
finish_body_load-IsLinked key ch r c v =
    ground (arith, v, update-IsLinked (publish ch r) key c c.next_chan (publish_same ch r) v)

module _ {Out : Type 0} (providers : ProviderResolver Out) where
  load_as-IsLinked :
      (e : Entry) (key : ProviderSkillKey) (loading : Catalog → Catalog) (c : Catalog)
      → ((d : Catalog) → IsLinked d → IsLinked (loading d))
      → IsLinked c
      → IsLinked (load_as providers e key loading c).0
  unfolding load_as
  load_as-IsLinked e key loading c keeps v = finish_body_load-IsLinked key _ _ _ (
      keeps _ (
        update-IsLinked (λ x. record x { body_wait = some c.next_chan }) key c _ (λ x. (refl, refl))
          v))

  -- `P` stands for being linked.
  ensure_rounds-keeps :
      (P : Catalog → Type 0) (around : ℕ → Around) (key : ProviderSkillKey)
      → ((i : ℕ) (c : Catalog) → P c → P ((around i).before c))
      → ((i : ℕ) (c : Catalog) → P c → P ((around i).waiting c).0)
      → ((i : ℕ) (e : Entry) (c : Catalog)
          → P c
          → P (load_as providers e key (around i).loading c).0)
      → (n : ℕ) (c : Catalog) → P c
      → P (ensure_rounds providers n around key c).0
  unfolding ensure_rounds
  ensure_rounds-keeps P around key before waiting load zero c v = v
  ensure_rounds-keeps P around key before waiting load (suc n) c v =
      let c1 = (around n).before c in
      let v1 = before n c v in
      let v2 = waiting n c1 v1 in
      let c2 = ((around n).waiting c1).0 in
      let again = ensure_rounds-keeps P around key before waiting load n c2 v2 in
      elim (Option-cases (lookup key c1.by_key)) [
        | inl miss ↦ ground (arith, v, v1)
        | inr (e, hit) ↦ ground (arith, v, v1, v2, again, load n e c1 v1)
      ]

  -- Every outcome of `EnsureBody` leaves the catalog linked, if the other goroutines do.
  pub ensure_body-IsLinked :
      (around : ℕ → Around) (ctx : Ctx) (key : ProviderSkillKey) (c : Catalog)
      → ((i : ℕ) → KeepsLinked (around i))
      → IsLinked c
      → IsLinked (ensure_body providers around ctx key c).0
  unfolding ensure_body
  ensure_body-IsLinked around (some x) key c keeps v = v
  ensure_body-IsLinked around none key c keeps v =
      ensure_rounds-keeps IsLinked around key (λ i. (keeps i).before) (λ i. (keeps i).waiting)
        (λ i e d. load_as-IsLinked e key (around i).loading d (keeps i).loading) 5 c v
