-- ===== src/Document/Parse.antt =====
-- `ParseSkillDocument`.
use agentskills_go.Base.{
  Bytes, bytes_eq, nat_eq, Bool, ◌&&◌, ◌||◌, not, List, [], ◌∷◌, ◌++◌, Option, none, some, codes,
  leb, ltb, nat_beq, if◌then◌else◌, ◌==◌, length, contains,
}
use agentskills_go.Document.Checks.{
  validate_skill_document_name, validate_skill_document_description,
}
use agentskills_go.Document.Items.{
  parse_skill_document_insert, parse_skill_document_arguments, parse_skill_document_tags,
}
use agentskills_go.Document.Limits.{
  Flaw, Checked, good, bad, document_too_large, document_not_utf8, document_has_nul,
  undecodable_frontmatter, name_missing, name_not_string, name_unexpected, description_missing,
  description_not_string, max_skill_document_bytes, max_skill_display_name_bytes,
}
use agentskills_go.Document.Lines.{
  split_skill_document_frontmatter, first_skill_document_heading, normalize_body,
  truncate_valid_utf8,
}
use agentskills_go.Document.Values.{get_field, field_or_nil, clone_skill_document_map, decimal}
use agentskills_go.Spec.{Value, Fields, SkillDocument}
use agentskills_go.Text.{trim_space, is_blank}
use agentskills_go.Text.Utf8.{valid_utf8}

infixl 5 ◌>>=◌ ◌>>◌
abbrev pub ◌>>=◌ {ℓ κ} : {A : Type ℓ} {B : Type κ} → Checked A → (A → Checked B) → Checked B
good a >>= next = next a
bad f >>= next = bad f

abbrev pub ◌>>◌ {ℓ} : {B : Type ℓ} → Checked (Unit {0}) → Checked B → Checked B
check >> next = check >>= λ _. next

abbrev pub require : Bool → Flaw → Checked (Unit {0})
require b f = if b then good tt else bad f

abbrev pub no_flaw : Option Flaw → Checked (Unit {0})
no_flaw none = good tt
no_flaw (some f) = bad f

-- `bytes.CutPrefix(content, BOM)`
unfoldable pub cut_bom : Bytes → Bytes × List Bytes
cut_bom (a ∷ b ∷ c ∷ s) =
    if nat_beq a 0xEF && nat_beq b 0xBB && nat_beq c 0xBF
    then (s, codes "UTF-8 BOM was removed" ∷ [])
    else (a ∷ b ∷ c ∷ s, [])
cut_bom s = (s, [])

-- `requiredSkillDocumentString`, with the flaws of this key
unfoldable pub required_skill_document_string :
    Fields → Bytes → Flaw → Flaw → Checked (Bytes × List Bytes)
required_skill_document_string properties key missing not_string = elim (get_field key properties) [
  | none ↦ bad missing
  | some raw ↦ elim raw [
    | Value.text value ↦
        if trim_space value == value
        then good (value, [])
        else good (
          trim_space value,
          (codes "frontmatter." ++ (key ++ codes " had leading or trailing whitespace removed"))
              ∷ [],
        )
    | _ ↦ bad not_string
  ]
]

-- the text of the fields that identify the document, and their warnings
unfoldable pub read_identity : Bytes → Fields → Checked ((Bytes × Bytes) × List Bytes)
read_identity expected properties = do
  (name, w) ← required_skill_document_string properties (codes "name") name_missing name_not_string
  no_flaw (validate_skill_document_name name)
  (description, w') ←
      required_skill_document_string properties (codes "description") description_missing
        description_not_string
  no_flaw (validate_skill_document_description description)
  require (is_blank expected || name == trim_space expected) name_unexpected
  good ((name, description), w ++ w')

-- the name that the document shows: its first heading, else its name, at most 256 bytes
unfoldable pub display_name_of : Bytes → Bytes → Bytes × List Bytes
display_name_of name body =
    let heading = first_skill_document_heading body in
    let shown = if heading == [] then name else heading in
    if ltb max_skill_display_name_bytes (length shown)
    then (
      truncate_valid_utf8 shown max_skill_display_name_bytes,
      (codes "display name was truncated to "
            ++ (decimal max_skill_display_name_bytes ++ codes " bytes"))
          ∷ [],
    )
    else (shown, [])

-- `uniqueSkillDocumentWarnings`; the first list holds those kept so far
unfoldable pub unique_warnings : List Bytes → List Bytes → List Bytes
unique_warnings output [] = output
unique_warnings output (value ∷ rest) =
    unique_warnings
      (if is_blank value
        then output
        else if contains (trim_space value) output
        then output
        else output ++ (trim_space value ∷ []))
      rest

unfoldable pub body_warnings : Bytes → List Bytes
body_warnings body =
    if is_blank body
    then codes "SKILL.md body is empty; the skill may still provide resources or scripts" ∷ []
    else []

-- The document of the decoded fields and the rest of the content, with all warnings.
unfoldable pub assemble :
    (Bytes → Bytes) → Bytes × Bytes → Fields → Bytes → List Bytes → SkillDocument × List Bytes
assemble quote (name, description) properties rest warnings =
    let (insert, w1) =
      parse_skill_document_insert quote (field_or_nil (codes "insert") properties) in
    let (arguments, w2) =
      parse_skill_document_arguments (field_or_nil (codes "arguments") properties) in
    let (tags, w3) = parse_skill_document_tags (field_or_nil (codes "tags") properties) in
    let body = normalize_body rest in
    let (display_name, w4) = display_name_of name body in
    (
      record {
        name = name;
        display_name = display_name;
        description = description;
        insert = insert;
        arguments = arguments;
        tags = tags;
        markdown_body = body;
        raw_frontmatter = clone_skill_document_map (some properties);
      },
      unique_warnings [] (warnings ++ (w1 ++ (w2 ++ (w3 ++ (body_warnings body ++ w4))))),
    )

unfoldable pub decoded : Option Fields → Checked Fields
decoded none = bad undecodable_frontmatter
decoded (some properties) = good properties

-- The YAML decoder and `%q` are arguments: `decode` gives the map that a document fills, or an error.
module _ (decode : Bytes → Option Fields) (quote : Bytes → Bytes) where
  unfoldable pub parse_skill_document : Bytes → Bytes → Checked (SkillDocument × List Bytes)
  parse_skill_document expected content = do
    require (leb (length content) max_skill_document_bytes) document_too_large
    require (valid_utf8 content) document_not_utf8
    require (not (contains 0 content)) document_has_nul
    (frontmatter, rest) ← split_skill_document_frontmatter (cut_bom content).0
    properties ← decoded (decode frontmatter)
    (identity, w) ← read_identity expected properties
    good (assemble quote identity properties rest ((cut_bom content).1 ++ w))
