-- ===== src/Runtime/Sections.antt =====
-- What `SkillsPrompt` writes, and which skills it shows.
use mathlib.Core.List.{reverse-append, reverse-reverse}
use agentskills_go.Base.{
  Bytes, bytes_eq, Bool, true, false, not, List, [], ◌∷◌, ◌++◌, codes, ◌≡◌, ◌∙◌, refl, sym, ap,
  arith, append_assoc, append-nil, reverse, keep, length, contains, inl, inr, Bool-cases, ◌&&◌,
  ◌==◌, Option, none, some, ℕ, lookup, keys, is_some-lookup, IsDistinct,
}
use agentskills_go.Artifact.Insert.{normalize_skill_insert}
use agentskills_go.Artifact.Inserts.{normalize-instructions}
use agentskills_go.Catalog.Body.{Around}
use agentskills_go.Catalog.Changes.{IsLinked}
use agentskills_go.Catalog.Ops.{get_index}
use agentskills_go.Catalog.Filters.{prompt_match, insert_matches, some_insert}
use agentskills_go.Catalog.Listing.{count, list_prompt_index_records, list_prompt_index_records_lem}
use agentskills_go.Catalog.Names.{ByKey}
use agentskills_go.Catalog.State.{Catalog, Entry}
use agentskills_go.Prompt.Texts.{
  AvailableSkillItem, ActiveSkillItem, available_items, active_items, available_key,
  available_skills_prompt, active_skills_prompt,
}
use agentskills_go.Runtime.Prompt.{
  SkillFilter, to_catalog_prompt_filter, wrapped_parts, wrap_skills_prompt, join_sections,
  available_entry, available_entries, some_before, record_keys, active_round,
}
use agentskills_go.Spec.{
  ProviderSkillKey, ProviderSkillIndexRecord, key_eq, skill_insert_instructions, ProviderResolver,
  ok,
}
use agentskills_go.Text.{
  space_width, last_space_width, strip, trim_left_space, trim_right_space, trim_space, is_blank,
}
use agentskills_go.Text.Order.{sort_by}
use agentskills_go.Text.Trim.{strip_none}

last_space_width-bracket : (t : Bytes) → last_space_width (b'>' ∷ t) ≡ 0
unfolding last_space_width
last_space_width-bracket [] = refl
last_space_width-bracket (a ∷ []) = ground arith
last_space_width-bracket (a ∷ b ∷ t) = ground arith

-- A text in angle brackets has no white space around it.
trim_right_space-bracket : (s : Bytes) → trim_right_space (s ++ (b'>' ∷ [])) ≡ s ++ (b'>' ∷ [])
unfolding trim_right_space
trim_right_space-bracket s =
    let text = s ++ (b'>' ∷ []) in
    ap (λ x. reverse (strip last_space_width 0 x)) (reverse-append s (b'>' ∷ []))
    ∙ ap reverse (
        strip_none last_space_width (b'>' ∷ reverse s) (last_space_width-bracket (reverse s))
        ∙ sym (reverse-append s (b'>' ∷ [])))
    ∙ reverse-reverse text

trim_space-bracket :
    (s : Bytes) → trim_space (b'<' ∷ (s ++ (b'>' ∷ []))) ≡ b'<' ∷ (s ++ (b'>' ∷ []))
unfolding trim_space trim_left_space
trim_space-bracket s =
    ap trim_right_space (kept (s ++ (b'>' ∷ []))) ∙ trim_right_space-bracket (b'<' ∷ s)
  where
    kept : (t : Bytes) → strip space_width 0 (b'<' ∷ t) ≡ b'<' ∷ t
    kept [] = unfold strip space_width in refl
    kept (a ∷ []) = unfold strip space_width in refl
    kept (a ∷ b ∷ t) = unfold strip space_width in refl

is_blank-bracket : (s : Bytes) → is_blank (b'<' ∷ (s ++ (b'>' ∷ []))) ≡ false
is_blank-bracket s = rw (trim_space-bracket s, is_blank) refl

-- a section with a text between its brackets
is_blank-section :
    (mid start end : Bytes) → is_blank ((b'<' ∷ (start ++ mid)) ++ (end ++ (b'>' ∷ []))) ≡ false
is_blank-section mid start end =
    rw (sym (append_assoc (start ++ mid) end (b'>' ∷ [])))
      (is_blank-bracket ((start ++ mid) ++ end))

-- Neither section is blank.
available_skills_prompt-shown :
    (items : List AvailableSkillItem) → is_blank (available_skills_prompt items) ≡ false
unfolding available_skills_prompt
available_skills_prompt-shown [] =
    is_blank-section (codes "(none)\n") (codes "<<AVAILABLE_SKILLS>>>\n")
      (codes "<<<END_AVAILABLE_SKILLS>>")
available_skills_prompt-shown (it ∷ items) =
    is_blank-section (available_items (sort_by available_key (it ∷ items)))
      (codes "<<AVAILABLE_SKILLS>>>\n") (codes "<<<END_AVAILABLE_SKILLS>>")

active_skills_prompt-shown :
    (items : List ActiveSkillItem) → is_blank (active_skills_prompt items) ≡ false
unfolding active_skills_prompt
active_skills_prompt-shown [] =
    is_blank-section (codes "(none)\n") (codes "<<ACTIVE_SKILLS>>>\n")
      (codes "<<<END_ACTIVE_SKILLS>>")
active_skills_prompt-shown (it ∷ items) =
    is_blank-section (active_items (it ∷ items)) (codes "<<ACTIVE_SKILLS>>>\n")
      (codes "<<<END_ACTIVE_SKILLS>>")

wrap_skills_prompt-both :
    (a b : Bytes)
    → is_blank a ≡ false
    → is_blank b ≡ false
    → wrap_skills_prompt (a ∷ b ∷ [])
      ≡ codes "<<<SKILLS_PROMPT>>>\n"
        ++ (a ++ (codes "\n" ++ (b ++ codes "\n<<<END_SKILLS_PROMPT>>>")))
unfolding wrap_skills_prompt wrapped_parts
wrap_skills_prompt-both a b h k =
    let end = codes "\n<<<END_SKILLS_PROMPT>>>" in
    let text = λ (x : Bytes). codes "<<<SKILLS_PROMPT>>>\n" ++ x in
    rw (h, k)
      (ap text (append_assoc a (codes "\n" ++ (b ++ [])) end)
        ∙ ap (λ x. text (a ++ (codes "\n" ++ (x ++ end)))) (append-nil b))

-- A section that stands alone is what is returned, and two sections are wrapped, the available one
-- first.
pub join_sections_lem :
    (items : List AvailableSkillItem) (is : List ActiveSkillItem)
    → (join_sections (available_skills_prompt items) [] ≡ available_skills_prompt items)
      × (join_sections [] (active_skills_prompt is) ≡ active_skills_prompt is)
      × (join_sections (available_skills_prompt items) (active_skills_prompt is)
          ≡ codes "<<<SKILLS_PROMPT>>>\n"
            ++ (available_skills_prompt items
                ++ (codes "\n" ++ (active_skills_prompt is ++ codes "\n<<<END_SKILLS_PROMPT>>>"))))
join_sections_lem items is =
    let a = available_skills_prompt-shown items in
    let b = active_skills_prompt-shown is in
    (
      rw (a, is_blank-empty) refl,
      rw (b, is_blank-empty) refl,
      rw (a, b)
          (wrap_skills_prompt-both (available_skills_prompt items) (active_skills_prompt is) a b),
    )
  where
    is_blank-empty : is_blank [] ≡ true
    is_blank-empty = unfold trim_space trim_left_space trim_right_space strip in refl

-- whether the host means the skill to be inserted as instructions
abbrev pub is_instruction : ProviderSkillIndexRecord → Bool
is_instruction r =
    (normalize_skill_insert r.insert).1
    && (normalize_skill_insert r.insert).0 == skill_insert_instructions

prompt_match-instruction :
    (f : SkillFilter) (e : Entry)
    → prompt_match (to_catalog_prompt_filter f) e ≡ true
    → is_instruction e.idx ≡ true
unfolding prompt_match to_catalog_prompt_filter insert_matches some_insert
prompt_match-instruction f e h = ground (
  arith,
  normalize-instructions,
  bytes_eq.beq_iff skill_insert_instructions (normalize_skill_insert e.idx.insert).0,
  bytes_eq.beq_iff (normalize_skill_insert e.idx.insert).0 skill_insert_instructions,
)

count-other :
    (f : SkillFilter) (m : ByKey)
    → count (prompt_match (to_catalog_prompt_filter f)) (λ k e. not (is_instruction e.idx)) m ≡ 0
count-other f [] = refl
count-other f ((k, e) ∷ m) = ground (arith, count-other f m, prompt_match-instruction f e)

-- Each entry stands under its own key, and that of `k` is not inserted as instructions.
abbrev IsOther : ProviderSkillKey → ByKey → Type 0
IsOther k m =
    (j : ProviderSkillKey) (e : Entry)
    → lookup j m ≡ some e
    → (e.idx.key ≡ j) × (j ≡ k → is_instruction e.idx ≡ false)

count-key :
    (f : SkillFilter) (k : ProviderSkillKey) (m : ByKey)
    → IsDistinct (keys m)
    → IsOther k m
    → count (prompt_match (to_catalog_prompt_filter f)) (λ j e. e.idx.key == k) m ≡ 0
count-key f k [] d o = refl
count-key f k ((i, e) ∷ m) (new, d) o =
    let (own, other) = o i e (ground (arith, key_eq.beq_iff i i)) in
    let rest =
      count-key f k m d (λ j x h. o j x (ground (arith, is_some-lookup j m, key_eq.beq_iff i j))) in
    ground (arith, rest, prompt_match-instruction f e, other, key_eq.beq_iff e.idx.key k)

contains-record_keys :
    (k : ProviderSkillKey) (rs : List ProviderSkillIndexRecord)
    → length (keep (λ r. r.key == k) rs) ≡ 0
    → contains k (record_keys rs) ≡ false
contains-record_keys k [] h = refl
contains-record_keys k (r ∷ rs) h = ground (arith, contains-record_keys k rs)

get_index-entry :
    (c : Catalog) (k : ProviderSkillKey) (idx : ProviderSkillIndexRecord) (e : Entry)
    → lookup k c.by_key ≡ some e
    → get_index c k ≡ some idx
    → e.idx ≡ idx
unfolding get_index
get_index-entry c k idx e h at =
    ap (λ o. elim o [ none ↦ idx | some i ↦ i ]) (sym (ap index_of h) ∙ at)
  where
    index_of : Option Entry → Option ProviderSkillIndexRecord
    index_of none = none
    index_of (some e) = some e.idx

module _ {Out : Type 0} (providers : ProviderResolver Out) where
  pub list_prompt_index_records-instructions :
      (f : SkillFilter) (c : Catalog) (k : ProviderSkillKey) (idx : ProviderSkillIndexRecord)
      → IsLinked c
      → IsDistinct (keys c.by_key)
      → get_index c k ≡ some idx
      → is_instruction idx ≡ false
      → (keep
            (λ r. not (is_instruction r))
            (list_prompt_index_records (to_catalog_prompt_filter f) c)
          ≡ [])
        × (contains k (record_keys (list_prompt_index_records (to_catalog_prompt_filter f) c))
            ≡ false)
        × ((around : ℕ → Around) (now : Catalog)
            → active_round providers around
                (record_keys (list_prompt_index_records (to_catalog_prompt_filter f) c))
                k
                now
              ≡ (now, ok none))
  unfolding active_round
  list_prompt_index_records-instructions f c k idx l d at user =
      let rs = list_prompt_index_records (to_catalog_prompt_filter f) c in
      let other : IsOther k c.by_key = (λ j e h. (
        (l.def_of j e h).1,
        λ same.
            ap is_instruction
              (get_index-entry c k idx e (ap (λ i. lookup i c.by_key) (sym same) ∙ h) at)
            ∙ user,
      )) in
      let unlisted = contains-record_keys k rs (
        (list_prompt_index_records_lem (to_catalog_prompt_filter f) c (λ r. r.key == k)).1
        ∙ count-key f k c.by_key d other) in
      (
        none_left _ (
            (list_prompt_index_records_lem (to_catalog_prompt_filter f) c
              (λ r. not (is_instruction r))).1
            ∙ count-other f c.by_key),
        unlisted,
        λ around now. rw unlisted refl,
      )
    where
      none_left : (rs : List ProviderSkillIndexRecord) → length rs ≡ 0 → rs ≡ []
      none_left [] h = refl
      none_left (r ∷ rs) h = absurd (ground arith)

-- The available section leaves out exactly the active skills: it is that of the skills that are not
-- active, for a session with none.
pub available_entries-inactive :
    (c : Catalog) (active : List ProviderSkillKey) (rs : List ProviderSkillIndexRecord)
    → available_entries c active rs
      ≡ available_entries c [] (keep (λ r. not (contains r.key active)) rs)
unfolding available_entries available_entry
available_entries-inactive c active [] = refl
available_entries-inactive c active (r ∷ rs) = elim (Bool-cases (contains r.key active)) [
  | inl e ↦ rw e (available_entries-inactive c active rs)
  | inr e ↦ rw e (ap (some_before _) (available_entries-inactive c active rs))
]
