-- ===== src/Document/Checks.antt =====
-- `ValidateSkillDocument` and the checks of a name and a description.
use agentskills_go.Base.{
  ℕ, Bytes, bytes_eq, nat_eq, Bool, true, false, ◌&&◌, ◌||◌, not, List, [], ◌∷◌, Option, none, some,
  leb, ltb, nat_beq, if◌then◌else◌, ◌==◌, length, contains,
}
use agentskills_go.Artifact.Insert.{normalize_skill_insert}
use agentskills_go.Artifact.Names.{is_valid_skill_argument_name}
use agentskills_go.Document.Limits.{
  Flaw, name_empty, name_untrimmed, name_malformed, description_empty, description_untrimmed,
  description_too_long, display_name_untrimmed, display_name_too_long, unsupported_insert,
  too_many_arguments, argument_name_invalid, duplicate_argument, argument_too_long, too_many_tags,
  tag_untrimmed, tag_too_long, duplicate_tag, body_not_utf8, body_has_nul, max_skill_name_bytes,
  max_skill_description_bytes, max_skill_display_name_bytes, max_skill_arguments,
  max_skill_argument_bytes, max_skill_tags, max_skill_tag_bytes,
}
use agentskills_go.Spec.{SkillArgument, SkillDocument}
use agentskills_go.Text.{trim_space}
use agentskills_go.Text.Utf8.{valid_utf8}

-- A check gives the flaw that it found, if any; the next one runs if there is none.
infixr 20 ◌or_else◌
abbrev pub ◌or_else◌ : Option Flaw → Option Flaw → Option Flaw
none or_else next = next
some f or_else next = some f

abbrev pub refuse_if : Bool → Flaw → Option Flaw
refuse_if b f = if b then some f else none

abbrev pub is_untrimmed : Bytes → Bool
is_untrimmed s = not (s == trim_space s)

-- `[a-z0-9]`
abbrev pub is_name_edge : ℕ → Bool
is_name_edge b = leb b'a' b && leb b b'z' || leb b'0' b && leb b b'9'

-- what follows the first byte: `(?:[a-z0-9-]*[a-z0-9])?`
abbrev pub ends_name : Bytes → Bool
ends_name [] = true
ends_name (b ∷ []) = is_name_edge b
ends_name (b ∷ c ∷ s) = (is_name_edge b || nat_beq b b'-') && ends_name (c ∷ s)

-- `skillDocumentNamePattern`; the repetition allows 64 bytes
unfoldable pub matches_name_pattern : Bytes → Bool
matches_name_pattern [] = false
matches_name_pattern (b ∷ s) = is_name_edge b && ends_name s && leb (length (b ∷ s)) 64

abbrev pub has_double_hyphen : Bytes → Bool
has_double_hyphen [] = false
has_double_hyphen (a ∷ []) = false
has_double_hyphen (a ∷ b ∷ s) = nat_beq a b'-' && nat_beq b b'-' || has_double_hyphen (b ∷ s)

unfoldable pub validate_skill_document_name : Bytes → Option Flaw
validate_skill_document_name value =
    refuse_if (value == []) name_empty
    or_else refuse_if (is_untrimmed value) name_untrimmed
    or_else refuse_if
        (ltb max_skill_name_bytes (length value)
          || not (matches_name_pattern value)
          || has_double_hyphen value)
        name_malformed

unfoldable pub validate_skill_document_description : Bytes → Option Flaw
validate_skill_document_description value =
    refuse_if (value == []) description_empty
    or_else refuse_if (is_untrimmed value) description_untrimmed
    or_else refuse_if (ltb max_skill_description_bytes (length value)) description_too_long

unfoldable pub validate_argument : List Bytes → SkillArgument → Option Flaw
validate_argument seen a =
    refuse_if (is_untrimmed a.name || not (is_valid_skill_argument_name a.name))
      argument_name_invalid
    or_else refuse_if (contains a.name seen) duplicate_argument
    or_else refuse_if
        (ltb max_skill_argument_bytes (length a.description)
          || ltb max_skill_argument_bytes (length a.default))
        argument_too_long

unfoldable pub validate_arguments : List Bytes → List SkillArgument → Option Flaw
validate_arguments seen [] = none
validate_arguments seen (a ∷ args) =
    validate_argument seen a or_else validate_arguments (a.name ∷ seen) args

unfoldable pub validate_tag : List Bytes → Bytes → Option Flaw
validate_tag seen tag =
    refuse_if (tag == [] || is_untrimmed tag) tag_untrimmed
    or_else refuse_if (ltb max_skill_tag_bytes (length tag)) tag_too_long
    or_else refuse_if (contains tag seen) duplicate_tag

unfoldable pub validate_tags : List Bytes → List Bytes → Option Flaw
validate_tags seen [] = none
validate_tags seen (tag ∷ tags) = validate_tag seen tag or_else validate_tags (tag ∷ seen) tags

unfoldable pub validate_display_name : Bytes → Option Flaw
validate_display_name name =
    if name == []
    then none
    else refuse_if (is_untrimmed name) display_name_untrimmed
      or_else refuse_if (ltb max_skill_display_name_bytes (length name)) display_name_too_long

unfoldable pub validate_skill_document : SkillDocument → Option Flaw
validate_skill_document document =
    validate_skill_document_name document.name
    or_else validate_skill_document_description document.description
    or_else validate_display_name document.display_name
    or_else refuse_if (not (normalize_skill_insert document.insert).1) unsupported_insert
    or_else refuse_if (ltb max_skill_arguments (length document.arguments)) too_many_arguments
    or_else validate_arguments [] document.arguments
    or_else refuse_if (ltb max_skill_tags (length document.tags)) too_many_tags
    or_else validate_tags [] document.tags
    or_else refuse_if (not (valid_utf8 document.markdown_body)) body_not_utf8
    or_else refuse_if (contains 0 document.markdown_body) body_has_nul
