-- ===== src/Tests/Catalogs.antt =====
-- Catalogs of two skills.
use mathlib.Core.Path.{subst}
use agentskills_go.Base.{
  Bytes, bytes_eq, [], ◌∷◌, ◌++◌, none, some, codes, ◌≡◌, ◌≢◌, ◌∙◌, refl, sym, arith, ap, ◌⊎◌,
  if◌then◌else◌, lookup, inl, inr, ◌==◌,
}
use agentskills_go.Catalog.Body.{ensure_body}
use agentskills_go.Catalog.Cache.{alone, ensure_body_cached, ensure_body_failed}
use agentskills_go.Catalog.Changes.{IsLinked, insert_entry-effect, remove-effect}
use agentskills_go.Catalog.Handles.{IsNamed, HasNoHash, resolve-handle_for_key}
use agentskills_go.Catalog.Interface.{catalog_ops, catalog_ops-CatalogLaws}
use agentskills_go.Catalog.Lifecycle.{new_catalog-IsLinked, add-IsLinked, remove-insert_entry}
use agentskills_go.Catalog.Names.{short_hash_def, recompute_llm_names}
use agentskills_go.Catalog.Ops.{
  insert_entry, remove, resolve_def, get_index, handle_for_key, resolve_handle, with_entry,
  new_entry,
}
use agentskills_go.Catalog.State.{Catalog, Entry, new_catalog, skill_record_from}
use agentskills_go.Session.Success.{CatalogLaws}
use agentskills_go.Spec.{
  Error, ok, err, ProviderSkillKey, SkillDef, SkillHandle, ProviderResolver, key_eq, def_eq,
}
use agentskills_go.Tests.Data.{
  program, digest, key_a, key_b, def_a, def_b, handle_a, index_of, providers, one, both,
}

pub one-IsLinked : IsLinked one
unfolding program
one-IsLinked = add-IsLinked digest providers none def_a new_catalog new_catalog-IsLinked

pub both-IsLinked : IsLinked both
unfolding program
both-IsLinked = add-IsLinked digest providers none def_b one one-IsLinked

insert_entry-effect_example :
    (skill_record_from def_b (index_of key_b) ≡ skill_record_from def_b (index_of key_b))
    × (get_index one key_b ≡ none)
    × (resolve_def one def_b ≡ none)
    × ((j : ProviderSkillKey)
        → get_index both j ≡ (if key_b == j then some (index_of key_b) else get_index one j))
    × ((d : SkillDef) → resolve_def both d ≡ (if def_b == d then some key_b else resolve_def one d))
unfolding program
insert_entry-effect_example =
    insert_entry-effect digest def_b (index_of key_b) one both
      (skill_record_from def_b (index_of key_b)) refl

remove-effect_example :
    (resolve_def both def_a ≡ some key_a)
    × ((j : ProviderSkillKey)
        → get_index (remove digest def_a both).0 j
          ≡ (if key_a == j then none else get_index both j))
    × ((d : SkillDef)
        → resolve_def (remove digest def_a both).0 d
          ≡ (if def_a == d then none else resolve_def both d))
unfolding program
remove-effect_example =
    remove-effect digest def_a both (remove digest def_a both).0
      (skill_record_from def_a (index_of key_a)) key_a both-IsLinked refl

remove-insert_entry_example :
    ((remove digest def_b both).1 ≡ some (skill_record_from def_b (index_of key_b), key_b))
    × ((j : ProviderSkillKey) → get_index (remove digest def_b both).0 j ≡ get_index one j)
    × ((d : SkillDef) → resolve_def (remove digest def_b both).0 d ≡ resolve_def one d)
unfolding program
remove-insert_entry_example =
    remove-insert_entry digest def_b (index_of key_b) one both
      (skill_record_from def_b (index_of key_b)) one-IsLinked refl

catalog_ops-CatalogLaws_example : CatalogLaws (catalog_ops providers)
catalog_ops-CatalogLaws_example = catalog_ops-CatalogLaws providers

-- no provider answers
abbrev gone : ProviderResolver Bytes
gone type = none

ensure_body_cached_example :
    ensure_body gone alone none key_a (ensure_body providers alone none key_a both).0
    ≡ ((ensure_body providers alone none key_a both).0, ok (codes "body of "))
unfolding program
ensure_body_cached_example =
    ensure_body_cached providers gone key_a both (ensure_body providers alone none key_a both).0
      (codes "body of ") refl

abbrev entry_a : Entry
entry_a = record (new_entry def_a (index_of key_a)) { llm_name = codes "a" }

ensure_body_failed_example :
    (ensure_body providers alone none key_a (ensure_body gone alone none key_a both).0).1
    ≡ err Error.provider_not_found
unfolding program
ensure_body_failed_example =
    ensure_body_failed gone providers key_a both entry_a Error.provider_not_found refl refl refl
      refl refl

-- one name and one location under two types
abbrev key_w : ProviderSkillKey
key_w = record key_a { type = codes "web" }

abbrev def_w : SkillDef
def_w = record def_a { type = codes "web" }

abbrev twins : Catalog
twins = (insert_entry digest def_w (index_of key_w) one).0

-- Both names carry a hash.
twins_handles :
    (handle_for_key twins key_a
      ≡ some (record handle_a { name = 97 ∷ b'#' ∷ 97 ∷ 0 ∷ 47 ∷ 97 ∷ [] }))
unfolding program
twins_handles = refl

-- A map of two keys.
lookup-two :
    (a b k : ProviderSkillKey) (x y e : Entry)
    → lookup k ((a, x) ∷ (b, y) ∷ []) ≡ some e
    → ((a ≡ k) × (x ≡ e)) ⊎ ((b ≡ k) × (y ≡ e))
lookup-two a b k x y e h = ground (arith, key_eq.beq_iff a k, key_eq.beq_iff b k)

abbrev entry_w : Entry
entry_w = new_entry def_w (index_of key_w)

-- the twins before their names are computed
abbrev unnamed : Catalog
unnamed = with_entry def_w (index_of key_w) one

unnamed-lookup :
    (k : ProviderSkillKey) (e : Entry)
    → lookup k unnamed.by_key ≡ some e
    → ((key_a ≡ k) × (entry_a ≡ e)) ⊎ ((key_w ≡ k) × (entry_w ≡ e))
unfolding program
unnamed-lookup k e h = lookup-two key_a key_w k entry_a entry_w e h

apart : short_hash_def digest def_a ≢ short_hash_def digest def_w
unfolding program
apart e = absurd (ground arith)

unnamed-IsNamed : IsNamed digest unnamed.by_key
unfolding program
unnamed-IsNamed = record {
  no_hash = λ k e h. elim (unnamed-lookup k e h) [
    | inl (p, q) ↦ subst (λ (x : Entry). HasNoHash x.idx.key.name) q refl
    | inr (p, q) ↦ subst (λ (x : Entry). HasNoHash x.idx.key.name) q refl
  ];
  own_key = λ k e h. elim (unnamed-lookup k e h) [
    | inl (p, q) ↦ sym (ap (λ (x : Entry). x.idx.key) q) ∙ p
    | inr (p, q) ↦ sym (ap (λ (x : Entry). x.idx.key) q) ∙ p
  ];
  no_clash = λ j k d e hd he n l s. elim (unnamed-lookup j d hd) [
    | inl (p, q) ↦ elim (unnamed-lookup k e he) [
      | inl (p', q') ↦ sym p ∙ p'
      | inr (p', q') ↦ absurd (
          apart (
            ap (λ (x : Entry). short_hash_def digest x.def) q
            ∙ s
            ∙ sym (ap (λ (x : Entry). short_hash_def digest x.def) q')))
    ]
    | inr (p, q) ↦ elim (unnamed-lookup k e he) [
      | inl (p', q') ↦ absurd (
          apart (
            sym (
              ap (λ (x : Entry). short_hash_def digest x.def) q
              ∙ s
              ∙ sym (ap (λ (x : Entry). short_hash_def digest x.def) q'))))
      | inr (p', q') ↦ sym p ∙ p'
    ]
  ];
}

abbrev handle_hashed : SkillHandle
handle_hashed = record handle_a { name = 97 ∷ b'#' ∷ 97 ∷ 0 ∷ 47 ∷ 97 ∷ [] }

resolve-handle_for_key_example :
    resolve_handle (recompute_llm_names digest unnamed) handle_hashed ≡ some key_a
unfolding program
resolve-handle_for_key_example =
    resolve-handle_for_key digest unnamed key_a handle_hashed (refl, (refl, tt)) unnamed-IsNamed
      refl refl

-- Two skills `a` at one place, a third whose name is the hashed name of the first, and a fourth whose
-- name is the hashed name of the third: the third and the fourth end with one name.
abbrev named : Bytes → Bytes → ProviderSkillKey
named type name = record { type = type; name = name; location = codes "/a" }

abbrev defined : ProviderSkillKey → SkillDef
defined k = record { type = k.type; name = k.name; location = k.location }

abbrev key_third : ProviderSkillKey
key_third = named (codes "fs") handle_hashed.name

abbrev key_fourth : ProviderSkillKey
key_fourth =
    named (codes "fs") (handle_hashed.name ++ b'#' ∷ short_hash_def digest (defined key_third))

abbrev three : Catalog
three = (insert_entry digest (defined key_third) (index_of key_third) twins).0

abbrev four : Catalog
four = (insert_entry digest (defined key_fourth) (index_of key_fourth) three).0

second_pass_clash : handle_for_key four key_third ≡ handle_for_key four key_fourth
unfolding program
second_pass_clash = refl
