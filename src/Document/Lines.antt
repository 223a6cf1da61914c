-- ===== src/Document/Lines.antt =====
-- Lines, line ends and headings; `splitSkillDocumentFrontmatter` and `truncateValidUTF8`.
use agentskills_go.Base.{
  ℕ, zero, suc, ◌-◌, Bytes, bytes_eq, Bool, ◌&&◌, ◌||◌, List, [], ◌∷◌, ◌++◌, Option, none, some,
  codes, nat_beq, leb, if◌then◌else◌, ◌==◌, length, take,
}
use agentskills_go.Document.Limits.{Checked, good, bad, no_frontmatter, unterminated_frontmatter}
use agentskills_go.Prompt.Texts.{trim_trailing_newlines}
use agentskills_go.Text.{trim_space}
use agentskills_go.Text.Utf8.{valid_utf8}

-- `a` before the first line of the list
abbrev pub onto_first : ℕ → List Bytes → List Bytes
onto_first a [] = (a ∷ []) ∷ []
onto_first a (l ∷ ls) = (a ∷ l) ∷ ls

-- What successive calls of `ReadString('\n')` return: each line with its line end, and last what stands
-- behind the last line end, with the end of the file.
unfoldable pub raw_lines : Bytes → List Bytes
raw_lines [] = [] ∷ []
raw_lines (a ∷ s) =
    let rest = raw_lines s in if nat_beq a 10 then (a ∷ []) ∷ rest else onto_first a rest

-- what `ReadAll` returns before these lines are read
abbrev pub unread : List Bytes → Bytes
unread [] = []
unread (l ∷ ls) = l ++ unread ls

abbrev pub bare : Bytes → Bytes
bare line = trim_space (trim_trailing_newlines line)

unfoldable pub opens_frontmatter : Bytes → Bool
opens_frontmatter line = bare line == codes "---"

unfoldable pub closes_frontmatter : Bytes → Bool
closes_frontmatter line = bare line == codes "---" || bare line == codes "..."

-- The loop that collects the frontmatter. The last line of the list is the end of the file.
unfoldable pub collect_frontmatter : Bytes → List Bytes → Checked (Bytes × Bytes)
collect_frontmatter frontmatter [] = bad unterminated_frontmatter
collect_frontmatter frontmatter (line ∷ rest) =
    let more = collect_frontmatter (frontmatter ++ line) rest in
    if closes_frontmatter line then good (frontmatter, unread rest) else more

-- the first line and the others
unfoldable pub split_lines_frontmatter : List Bytes → Checked (Bytes × Bytes)
split_lines_frontmatter [] = bad no_frontmatter
split_lines_frontmatter (first ∷ rest) =
    if opens_frontmatter first then collect_frontmatter [] rest else bad no_frontmatter

unfoldable pub split_skill_document_frontmatter : Bytes → Checked (Bytes × Bytes)
split_skill_document_frontmatter content = split_lines_frontmatter (raw_lines content)

-- `strings.SplitSeq(body, "\n")`
unfoldable pub split_lines : Bytes → List Bytes
split_lines [] = [] ∷ []
split_lines (a ∷ s) =
    let rest = split_lines s in if nat_beq a 10 then [] ∷ rest else onto_first a rest

-- `strings.CutPrefix(line, "# ")`
abbrev pub cut_heading : Bytes → Option Bytes
cut_heading [] = none
cut_heading (a ∷ []) = none
cut_heading (a ∷ b ∷ s) = if nat_beq a b'#' && nat_beq b b' ' then some s else none

unfoldable pub first_heading_of : List Bytes → Bytes
first_heading_of [] = []
first_heading_of (line ∷ rest) =
    let later = first_heading_of rest in
    elim (cut_heading (trim_space line)) [ none ↦ later | some value ↦ trim_space value ]

unfoldable pub first_skill_document_heading : Bytes → Bytes
first_skill_document_heading body = first_heading_of (split_lines body)

-- `strings.ReplaceAll(s, "\r\n", "\n")`
unfoldable pub replace_crlf_lf : Bytes → Bytes
replace_crlf_lf [] = []
replace_crlf_lf (a ∷ []) = a ∷ []
replace_crlf_lf (a ∷ b ∷ s) =
    let both = 10 ∷ replace_crlf_lf s in
    let one = a ∷ replace_crlf_lf (b ∷ s) in if nat_beq a 13 && nat_beq b 10 then both else one

-- `strings.ReplaceAll(s, "\r", "\n")`
unfoldable pub replace_cr_lf : Bytes → Bytes
replace_cr_lf [] = []
replace_cr_lf (a ∷ s) = let rest = replace_cr_lf s in (if nat_beq a 13 then 10 else a) ∷ rest

-- `strings.TrimLeft(s, "\n")`
unfoldable pub trim_left_lf : Bytes → Bytes
trim_left_lf [] = []
trim_left_lf (a ∷ s) = let rest = trim_left_lf s in if nat_beq a 10 then rest else a ∷ s

unfoldable pub normalize_body : Bytes → Bytes
normalize_body body = trim_left_lf (replace_cr_lf (replace_crlf_lf body))

-- The loop drops the last byte until the rest is valid; the number bounds the rounds.
unfoldable pub drop_until_valid : ℕ → Bytes → Bytes
drop_until_valid zero value = value
drop_until_valid (suc n) value =
    let next = drop_until_valid n (take (length value - 1) value) in
    if valid_utf8 value then value else next

-- Each round drops a byte, and the empty text is valid: `length` rounds are enough.
unfoldable pub truncate_valid_utf8 : Bytes → ℕ → Bytes
truncate_valid_utf8 value maximum =
    if nat_beq maximum 0 || leb (length value) maximum
    then value
    else drop_until_valid maximum (take maximum value)
