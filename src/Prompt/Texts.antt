-- ===== src/Prompt/Texts.antt =====
-- `AvailableSkillsPrompt` and `ActiveSkillsPrompt`.
use agentskills_go.Base.{
  ℕ, Bytes, bytes_eq, Bool, ◌||◌, List, [], ◌∷◌, ◌++◌, codes, nat_beq, if◌then◌else◌, ◌==◌, reverse,
}
use agentskills_go.Spec.{SkillResourceInfo}
use agentskills_go.Text.{trim_space}
use agentskills_go.Text.Order.{sort_by}

pub record AvailableSkillItem : Type 0 where
  pub name : Bytes
  pub description : Bytes
  pub location : Bytes
  pub resources : SkillResourceInfo

pub record ActiveSkillItem : Type 0 where
  pub name : Bytes
  pub body : Bytes
  pub resources : SkillResourceInfo

-- `\n` and `\r`
abbrev pub is_newline : ℕ → Bool
is_newline a = nat_beq a 10 || nat_beq a 13

-- The three calls of `ReplaceAll`: `\r\n`, then `\n`, then `\r`, each by a space.
unfoldable pub replace_crlf : Bytes → Bytes
replace_crlf [] = []
replace_crlf (a ∷ []) = a ∷ []
replace_crlf (a ∷ b ∷ s) =
    let both = 32 ∷ replace_crlf s in
    let one = a ∷ replace_crlf (b ∷ s) in
    if nat_beq a 13 then (if nat_beq b 10 then both else one) else one

unfoldable pub replace_byte : ℕ → Bytes → Bytes
replace_byte old [] = []
replace_byte old (a ∷ s) =
    let rest = replace_byte old s in if nat_beq a old then 32 ∷ rest else a ∷ rest

unfoldable pub trim_inline : Bytes → Bytes
trim_inline s = replace_byte 13 (replace_byte 10 (replace_crlf (trim_space s)))

unfoldable pub drop_newlines : Bytes → Bytes
drop_newlines [] = []
drop_newlines (a ∷ s) = let rest = drop_newlines s in if is_newline a then rest else a ∷ s

-- `strings.TrimRight(s, "\r\n")`
unfoldable pub trim_trailing_newlines : Bytes → Bytes
trim_trailing_newlines s = reverse (drop_newlines (reverse s))

-- the bytes of a line
abbrev pub line : Bytes → Bytes
line s = s ++ (10 ∷ [])

abbrev pub available_key : AvailableSkillItem → Bytes × Bytes
available_key it = (it.name, it.location)

-- a labelled line for a value that may be empty, and is left out then
unfoldable pub optional_line : Bytes → Bytes → Bytes
optional_line label value = if value == [] then [] else line (label ++ trim_inline value)

unfoldable pub available_item : AvailableSkillItem → Bytes
available_item it =
    line (codes "name: " ++ trim_inline it.name)
    ++ optional_line (codes "location: ") it.location
    ++ optional_line (codes "description: ") it.description

-- The items with the separator between them.
unfoldable pub available_items : List AvailableSkillItem → Bytes
available_items [] = []
available_items (it ∷ []) = available_item it
available_items (it ∷ next ∷ rest) =
    available_item it ++ line (codes "---") ++ available_items (next ∷ rest)

unfoldable pub available_skills_prompt : List AvailableSkillItem → Bytes
available_skills_prompt [] =
    line (codes "<<<AVAILABLE_SKILLS>>>")
    ++ line (codes "(none)")
    ++ codes "<<<END_AVAILABLE_SKILLS>>>"
available_skills_prompt (it ∷ items) =
    line (codes "<<<AVAILABLE_SKILLS>>>")
    ++ available_items (sort_by available_key (it ∷ items))
    ++ codes "<<<END_AVAILABLE_SKILLS>>>"

unfoldable pub active_item : ActiveSkillItem → Bytes
active_item it =
    let body = trim_trailing_newlines it.body in
    line (codes "name: " ++ trim_inline it.name)
    ++ line (codes "body:")
    ++ (if body == [] then [] else line body)

unfoldable pub active_items : List ActiveSkillItem → Bytes
active_items [] = []
active_items (it ∷ []) = active_item it
active_items (it ∷ next ∷ rest) =
    active_item it ++ line (codes "<!-- SKILL SEPARATOR -->") ++ active_items (next ∷ rest)

unfoldable pub active_skills_prompt : List ActiveSkillItem → Bytes
active_skills_prompt [] =
    line (codes "<<<ACTIVE_SKILLS>>>") ++ line (codes "(none)") ++ codes "<<<END_ACTIVE_SKILLS>>>"
active_skills_prompt (it ∷ items) =
    line (codes "<<<ACTIVE_SKILLS>>>")
    ++ active_items (it ∷ items)
    ++ codes "<<<END_ACTIVE_SKILLS>>>"
