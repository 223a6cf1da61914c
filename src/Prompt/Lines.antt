-- ===== src/Prompt/Lines.antt =====
-- How many lines a prompt has: no field of a skill adds a line of its own.
use agentskills_go.Base.{
  ℕ, suc, ◌+◌, ◌-◌, Bytes, bytes_eq, nat_eq, Bool, true, false, not, List, [], ◌∷◌, ◌++◌, codes,
  nat_beq, if◌then◌else◌, ◌==◌, ◌≡◌, refl, arith, keep, length, contains, ◌∙◌, sym,
}
use agentskills_go.Prompt.Texts.{
  AvailableSkillItem, available_key, replace_crlf, replace_byte, trim_inline, line, optional_line,
  available_item, available_items, available_skills_prompt,
}
use agentskills_go.Text.{trim_space}
use agentskills_go.Text.Order.{sort_by, keep-sort_by}

-- the number of line ends
abbrev pub lines : Bytes → ℕ
lines [] = 0
lines (a ∷ s) = let n = lines s in if nat_beq a 10 then suc n else n

lines-append : (s t : Bytes) → lines (s ++ t) ≡ lines s + lines t
lines-append [] t = omega arith
lines-append (a ∷ s) t = ground (arith, lines-append s t)

-- A replaced byte is gone, and no other byte but the space comes in.
contains-replace_byte :
    (b old : ℕ) (s : Bytes)
    → nat_beq 32 b ≡ false
    → contains b (replace_byte old s) ≡ (if nat_beq old b then false else contains b s)
unfolding replace_byte
contains-replace_byte b old [] h = ground arith
contains-replace_byte b old (a ∷ s) h = ground (arith, contains-replace_byte b old s h)

-- The text of an inline field has neither of the two line ends.
pub trim_inline_lem :
    (s : Bytes) → (contains 10 (trim_inline s) ≡ false) × (contains 13 (trim_inline s) ≡ false)
unfolding trim_inline
trim_inline_lem s =
    let t = replace_crlf (trim_space s) in
    (
      ground (
        arith,
        contains-replace_byte 10 13 (replace_byte 10 t) refl,
        contains-replace_byte 10 10 t refl,
      ),
      ground (arith, contains-replace_byte 13 13 (replace_byte 10 t) refl),
    )

lines-none : (s : Bytes) → contains 10 s ≡ false → lines s ≡ 0
lines-none [] h = refl
lines-none (a ∷ s) h = ground (arith, lines-none s)

lines-trim_inline : (s : Bytes) → lines (trim_inline s) ≡ 0
lines-trim_inline s = lines-none (trim_inline s) (trim_inline_lem s).0

abbrev pub has_location : AvailableSkillItem → Bool
has_location it = not (it.location == [])

abbrev pub has_description : AvailableSkillItem → Bool
has_description it = not (it.description == [])

lines-line : (s : Bytes) → lines (line s) ≡ lines s + 1
lines-line s = ground (arith, lines-append s (10 ∷ []))

lines-optional_line :
    (label value : Bytes)
    → lines label ≡ 0
    → lines (optional_line label value) ≡ (if value == [] then 0 else 1)
unfolding optional_line
lines-optional_line label value h = ground (
  arith,
  lines-line (label ++ trim_inline value),
  lines-append label (trim_inline value),
  lines-trim_inline value,
)

-- the lines that an item should have
abbrev item_lines : AvailableSkillItem → ℕ
item_lines it = 1 + (if has_location it then 1 else 0) + (if has_description it then 1 else 0)

lines-available_item : (it : AvailableSkillItem) → lines (available_item it) ≡ item_lines it
unfolding available_item
lines-available_item it =
    let name = codes "name: " ++ trim_inline it.name in
    let loc = optional_line (codes "location: ") it.location in
    let desc = optional_line (codes "description: ") it.description in
    ground (
      arith,
      lines-append (line name ++ loc) desc,
      lines-append (line name) loc,
      lines-line name,
      lines-append (codes "name: ") (trim_inline it.name),
      lines-trim_inline it.name,
      lines-optional_line (codes "location: ") it.location refl,
      lines-optional_line (codes "description: ") it.description refl,
    )

lines-available_items :
    (items : List AvailableSkillItem)
    → lines (available_items items)
      ≡ length items
        + length (keep has_location items)
        + length (keep has_description items)
        + (length items - 1)
unfolding available_items
lines-available_items [] = refl
lines-available_items (it ∷ []) = ground (arith, lines-available_item it)
lines-available_items (it ∷ next ∷ rest) =
    let more = available_items (next ∷ rest) in
    ground (
      arith,
      lines-available_item it,
      lines-available_items (next ∷ rest),
      lines-append (available_item it ++ line (codes "---")) more,
      lines-append (available_item it) (line (codes "---")),
    )

keep_all : (xs : List AvailableSkillItem) → length (keep (λ x. true) xs) ≡ length xs
keep_all [] = refl
keep_all (x ∷ xs) = omega (arith, keep_all xs)

length-sort_by :
    (items : List AvailableSkillItem) → length (sort_by available_key items) ≡ length items
length-sort_by items =
    sym (keep_all (sort_by available_key items))
    ∙ keep-sort_by available_key (λ x. true) items
    ∙ keep_all items

-- The prompt of some available skills has a line for the title, one for each name, each location and
-- each description that is not empty, and one between any two skills, whatever bytes these fields
-- hold: a field cannot add a line.
pub lines-available_skills_prompt :
    (it : AvailableSkillItem) (items : List AvailableSkillItem)
    → lines (available_skills_prompt (it ∷ items))
      ≡ 1
        + length (it ∷ items)
        + length (keep has_location (it ∷ items))
        + length (keep has_description (it ∷ items))
        + length items
unfolding available_skills_prompt
lines-available_skills_prompt it items =
    let sorted = sort_by available_key (it ∷ items) in
    let start = line (codes "<<<AVAILABLE_SKILLS>>>") in
    let end = codes "<<<END_AVAILABLE_SKILLS>>>" in
    omega (
      arith,
      lines-append (start ++ available_items sorted) end,
      lines-append start (available_items sorted),
      lines-available_items sorted,
      length-sort_by (it ∷ items),
      keep-sort_by available_key has_location (it ∷ items),
      keep-sort_by available_key has_description (it ∷ items),
    )
