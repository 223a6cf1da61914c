-- ===== src/Catalog/Listing.antt =====
-- `ListPromptIndexRecords` and `ListUserEntries`.
use agentskills_go.Base.{
  ℕ, suc, Bytes, bytes_eq, Bool, true, ◌&&◌, List, [], ◌∷◌, ◌≡◌, refl, arith, length, keep,
  if◌then◌else◌,
}
use agentskills_go.Catalog.Filters.{PromptFilter, UserFilter, prompt_match, user_match}
use agentskills_go.Catalog.Names.{ByKey}
use agentskills_go.Catalog.State.{Catalog, Entry, skill_record_from}
use agentskills_go.Spec.{ProviderSkillKey, ProviderSkillIndexRecord, SkillRecord}
use agentskills_go.Text.Order.{sort_by, is_sorted, sort_by-is_sorted, keep-sort_by}

pub record UserEntry : Type 0 where
  pub key : ProviderSkillKey
  pub record_of : SkillRecord

-- the index records of the entries that the filter lets through
unfoldable pub prompt_records : PromptFilter → ByKey → List ProviderSkillIndexRecord
prompt_records f [] = []
prompt_records f ((k, e) ∷ m) =
    let rest = prompt_records f m in if prompt_match f e then e.idx ∷ rest else rest

abbrev pub record_key : ProviderSkillIndexRecord → Bytes × Bytes
record_key r = (r.key.name, r.key.location)

unfoldable pub list_prompt_index_records : PromptFilter → Catalog → List ProviderSkillIndexRecord
list_prompt_index_records f c = sort_by record_key (prompt_records f c.by_key)

unfoldable pub user_entries : UserFilter → ByKey → List UserEntry
user_entries f [] = []
user_entries f ((k, e) ∷ m) =
    let rest = user_entries f m in
    if user_match f e
    then record { key = k; record_of = skill_record_from e.def e.idx } ∷ rest
    else rest

abbrev pub user_key : UserEntry → Bytes × Bytes
user_key u = (u.record_of.def.name, u.record_of.def.location)

unfoldable pub list_user_entries : UserFilter → Catalog → List UserEntry
list_user_entries f c = sort_by user_key (user_entries f c.by_key)

-- the number of entries that pass two tests
abbrev pub count : (Entry → Bool) → (ProviderSkillKey → Entry → Bool) → ByKey → ℕ
count p q [] = 0
count p q ((k, e) ∷ m) = let n = count p q m in if p e && q k e then suc n else n

keep-prompt_records :
    (f : PromptFilter) (p : ProviderSkillIndexRecord → Bool) (m : ByKey)
    → length (keep p (prompt_records f m)) ≡ count (prompt_match f) (λ k e. p e.idx) m
unfolding prompt_records
keep-prompt_records f p [] = refl
keep-prompt_records f p ((k, e) ∷ m) = ground (arith, keep-prompt_records f p m)

-- The listing for prompts is sorted by name and location, and holds the index record of each entry
-- that the filter lets through, as often as there are such entries, and no other: any test counts
-- as many of its records as entries.
pub list_prompt_index_records_lem :
    (f : PromptFilter) (c : Catalog) (p : ProviderSkillIndexRecord → Bool)
    → (is_sorted record_key (list_prompt_index_records f c) ≡ true)
      × (length (keep p (list_prompt_index_records f c))
          ≡ count (prompt_match f) (λ k e. p e.idx) c.by_key)
unfolding list_prompt_index_records
list_prompt_index_records_lem f c p =
    let l = prompt_records f c.by_key in
    (
      sort_by-is_sorted record_key l,
      ground (arith, keep-sort_by record_key p l, keep-prompt_records f p c.by_key),
    )

keep-user_entries :
    (f : UserFilter) (p : UserEntry → Bool) (m : ByKey)
    → length (keep p (user_entries f m))
      ≡ count
          (user_match f)
          (λ k e. p (record { key = k; record_of = skill_record_from e.def e.idx }))
          m
unfolding user_entries
keep-user_entries f p [] = refl
keep-user_entries f p ((k, e) ∷ m) = ground (arith, keep-user_entries f p m)

-- The listing for users is sorted by the name and the location of the definitions, and holds one
-- record for each entry that the filter lets through, and no other.
pub list_user_entries_lem :
    (f : UserFilter) (c : Catalog) (p : UserEntry → Bool)
    → (is_sorted user_key (list_user_entries f c) ≡ true)
      × (length (keep p (list_user_entries f c))
          ≡ count
              (user_match f)
              (λ k e. p (record { key = k; record_of = skill_record_from e.def e.idx }))
              c.by_key)
unfolding list_user_entries
list_user_entries_lem f c p =
    let l = user_entries f c.by_key in
    (
      sort_by-is_sorted user_key l,
      ground (arith, keep-sort_by user_key p l, keep-user_entries f p c.by_key),
    )
