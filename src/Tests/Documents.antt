-- ===== src/Tests/Documents.antt =====
-- Small SKILL.md documents.
use agentskills_go.Base.{
  keep, ◌++◌, Bytes, bytes_eq, true, List, [], ◌∷◌, Option, none, some, codes, ◌≡◌, refl, arith, ap,
  ◌∙◌, if◌then◌else◌, ◌==◌, nat_eq, ◌↔◌,
}
use agentskills_go.Document.Accepted.{parse_skill_document-validate_skill_document}
use agentskills_go.Document.Checks.{
  is_untrimmed, refuse_if, validate_skill_document, validate_skill_document_name,
  validate_skill_document_description, validate_argument, validate_arguments, validate_tag,
  validate_tags, validate_display_name, matches_name_pattern,
}
use agentskills_go.Document.Items.{
  argument_text, optional_skill_argument_text, read_named, read_argument_object, read_argument,
  keep_argument, accept_argument, arguments_loop, parse_skill_document_arguments, accept_tag,
  tags_loop, parse_skill_document_tags, parse_skill_document_insert,
}
use agentskills_go.Document.Kept.{parse_skill_document_arguments-AreChecked}
use agentskills_go.Document.Kept
use agentskills_go.Document.Limits.{good, bad, unterminated_frontmatter, display_name_untrimmed}
use agentskills_go.Document.Lines.{
  raw_lines, opens_frontmatter, closes_frontmatter, collect_frontmatter, split_lines_frontmatter,
  split_skill_document_frontmatter, split_lines, first_heading_of, first_skill_document_heading,
  replace_crlf_lf, replace_cr_lf, trim_left_lf, normalize_body, drop_until_valid,
  truncate_valid_utf8,
}
use agentskills_go.Document.Parse.{
  cut_bom, required_skill_document_string, read_identity, display_name_of, unique_warnings,
  body_warnings, assemble, decoded, parse_skill_document,
}
use agentskills_go.Artifact.Insert.{normalize_skill_insert}
use agentskills_go.Document.Encoded.{IsDecoded, text_items, object_items}
use agentskills_go.Document.RoundTrip.{document_properties-back}
use agentskills_go.Document.Split.{IsSplit, split_skill_document_frontmatter-IsSplit}
use agentskills_go.Document.Tagged.{parse_skill_document_tags-AreChecked}
use agentskills_go.Document.Tagged
use agentskills_go.Document.Truncate.{IsLongestValid, truncate_valid_utf8-longest}
use agentskills_go.Document.Values.{
  get_field, field_or_nil, value_list, text_list, skill_document_string_map, string_keyed,
  clone_value, clone_skill_document_map, digits, decimal, set_field, delete_field,
}
use agentskills_go.Document.Write.{
  argument_fields, argument_values, set_arguments, set_tags, document_properties, headed_body,
  written_body, document_text, marshal_skill_document, render_skill_document,
}
use agentskills_go.Document.Written.{full_lines, with_line_end, split-document_text-back}
use agentskills_go.Text.{trim_space}
use agentskills_go.Prompt.Texts.{trim_trailing_newlines, drop_newlines}
use agentskills_go.Spec.{Value, Values, Fields, ok, SkillDocument}
use agentskills_go.Tests.Data.{program}
use agentskills_go.Text.Utf8.{rune_width, valid_from, valid_utf8}

unfoldable pub documents : Unit {0}
unfolding program validate_skill_document validate_skill_document_name
    validate_skill_document_description validate_argument validate_arguments validate_tag
    validate_tags validate_display_name matches_name_pattern argument_text
    optional_skill_argument_text read_named read_argument_object read_argument keep_argument
    accept_argument arguments_loop parse_skill_document_arguments accept_tag tags_loop
    parse_skill_document_tags parse_skill_document_insert raw_lines opens_frontmatter
    closes_frontmatter collect_frontmatter split_lines_frontmatter split_skill_document_frontmatter
    split_lines first_heading_of first_skill_document_heading replace_crlf_lf replace_cr_lf
    trim_left_lf normalize_body drop_until_valid truncate_valid_utf8 cut_bom
    required_skill_document_string read_identity display_name_of unique_warnings body_warnings
    assemble decoded parse_skill_document get_field field_or_nil value_list text_list
    skill_document_string_map string_keyed clone_value clone_skill_document_map digits decimal
    set_field delete_field argument_fields argument_values set_arguments set_tags
    document_properties headed_body written_body document_text marshal_skill_document
    render_skill_document trim_trailing_newlines drop_newlines rune_width valid_from valid_utf8
documents = tt

-- the fields of the frontmatter that the small decoder knows
abbrev fields : Fields
fields = Fields.field (codes "name") (Value.text (codes "a ")) (
    Fields.field (codes "description") (Value.text (codes "d")) (
      Fields.field (codes "arguments")
        (Value.items (
          Values.cons (Value.text (codes "x"))
            (Values.cons (Value.text (codes "x")) (Values.cons Value.null Values.nil))))
        (Fields.field (codes "tags") (Value.texts (codes "t" ∷ codes " t" ∷ [])) Fields.end)))

abbrev front : Bytes
front = codes "name: a\n"

-- not YAML: one text and its fields
abbrev pub decode : Bytes → Option Fields
decode raw = if raw == front then some fields else none

abbrev pub quote : Bytes → Bytes
quote s = s

abbrev pub content : Bytes
content = codes "---\nname: a\n---\n\n# A\r\nhi\n"

abbrev pub document : SkillDocument
document = record {
  name = codes "a";
  display_name = codes "A";
  description = codes "d";
  insert = codes "instructions";
  arguments = record { name = codes "x"; description = []; default = [] } ∷ [];
  tags = codes "t" ∷ [];
  markdown_body = codes "# A\nhi\n";
  raw_frontmatter = some fields;
}

abbrev pub notes : List Bytes
notes =
    codes "frontmatter.name had leading or trailing whitespace removed"
    ∷ codes "duplicate argument ignored: x"
    ∷ codes "frontmatter.arguments[2] was ignored because it is not an object or string"
    ∷ []

parsed : parse_skill_document decode quote [] content ≡ good (document, notes)
unfolding documents
parsed = refl

unfinished :
    parse_skill_document decode quote [] (codes "---\nname: a\n") ≡ bad unterminated_frontmatter
unfolding documents
unfinished = refl

-- An indented line of three hyphens ends the frontmatter too.
indented :
    split_skill_document_frontmatter (codes "---\nname: |\n  ---\n---\nx")
    ≡ good (codes "name: |\n", codes "---\nx")
unfolding documents
indented = refl

-- a text that is cut behind a space
abbrev cut_title : Bytes
cut_title = truncate_valid_utf8 (codes "ab cd") 3

-- A text that is trimmed need not be after it is cut.
cut_untrimmed : is_untrimmed cut_title ≡ true
unfolding documents
cut_untrimmed = refl

parse_skill_document-validate_skill_document_example :
    validate_skill_document document
    ≡ refuse_if (is_untrimmed document.display_name) display_name_untrimmed
parse_skill_document-validate_skill_document_example =
    parse_skill_document-validate_skill_document decode quote [] content document notes parsed

split_skill_document_frontmatter-IsSplit_example :
    (split_skill_document_frontmatter content ≡ good (front, codes "\n# A\r\nhi\n"))
    ↔ IsSplit content front (codes "\n# A\r\nhi\n")
split_skill_document_frontmatter-IsSplit_example =
    split_skill_document_frontmatter-IsSplit content front (codes "\n# A\r\nhi\n")

split_content : split_skill_document_frontmatter content ≡ good (front, codes "\n# A\r\nhi\n")
unfolding documents
split_content = refl

-- `é€`, cut in the middle of the second letter
abbrev accents : Bytes
accents = 0xC3 ∷ 0xA9 ∷ 0xE2 ∷ 0x82 ∷ 0xAC ∷ []

truncate_valid_utf8-longest_example : IsLongestValid 4 accents (truncate_valid_utf8 accents 4)
truncate_valid_utf8-longest_example =
    truncate_valid_utf8-longest accents 4 (omega arith) (λ h. absurd (omega arith))

cut_accents : truncate_valid_utf8 accents 4 ≡ 0xC3 ∷ 0xA9 ∷ []
unfolding documents
cut_accents = refl

parse_skill_document_arguments-AreChecked_example :
    Kept.AreChecked (parse_skill_document_arguments (Value.texts (codes "x" ∷ codes "x" ∷ []))).0
parse_skill_document_arguments-AreChecked_example =
    parse_skill_document_arguments-AreChecked (Value.texts (codes "x" ∷ codes "x" ∷ []))

parse_skill_document_tags-AreChecked_example :
    Tagged.AreChecked (parse_skill_document_tags (Value.texts (codes "t" ∷ codes " t" ∷ []))).0
parse_skill_document_tags-AreChecked_example =
    parse_skill_document_tags-AreChecked (Value.texts (codes "t" ∷ codes " t" ∷ []))

marshalled :
    marshal_skill_document (λ fs. some front) document ≡ ok (codes "---\nname: a\n---\n\n# A\nhi\n")
unfolding documents
marshalled = refl

split-document_text-back_example :
    (rest : Bytes) × (split_skill_document_frontmatter (document_text front (codes "# A\nhi"))
      ≡ good (trim_space front ++ (10 ∷ []), rest))
    × (normalize_body rest ≡ with_line_end (codes "# A\nhi"))
split-document_text-back_example =
    split-document_text-back front (codes "# A\nhi") inner (unfold documents in refl)
  where
    inner : keep closes_frontmatter (full_lines (trim_space front)) ≡ []
    inner = unfold documents in refl

-- what a YAML library makes of the fields
abbrev read_back : Value → Value
read_back (Value.texts ts) = Value.items (text_items ts)
read_back (Value.objects os) = Value.items (object_items os)
read_back v = v

abbrev read_fields : Fields → Fields
read_fields Fields.end = Fields.end
read_fields (Fields.field k v fs) = Fields.field k (read_back v) (read_fields fs)

abbrev opt_read : Option Value → Option Value
opt_read none = none
opt_read (some v) = some (read_back v)

get_field-read_fields :
    (k : Bytes) (fs : Fields) → get_field k (read_fields fs) ≡ opt_read (get_field k fs)
unfolding get_field
get_field-read_fields k Fields.end = refl
get_field-read_fields k (Fields.field j v fs) = ground (arith, get_field-read_fields k fs)

read_fields-IsDecoded : (fs : Fields) → IsDecoded fs (read_fields fs)
read_fields-IsDecoded fs = record {
  text = λ k t e. get_field-read_fields k fs ∙ ap opt_read e;
  texts = λ k ts e. get_field-read_fields k fs ∙ ap opt_read e;
  objects = λ k os e a. get_field-read_fields k fs ∙ ap opt_read e;
  missing = λ k e. get_field-read_fields k fs ∙ ap opt_read e;
}

abbrev reread : Fields
reread = read_fields (document_properties document)

document_properties-back_example :
    (read_identity [] reread ≡ good ((document.name, document.description), []))
    × (parse_skill_document_insert quote (field_or_nil (codes "insert") reread)
        ≡ ((normalize_skill_insert document.insert).0, []))
    × (parse_skill_document_arguments (field_or_nil (codes "arguments") reread)
        ≡ (document.arguments, []))
    × (parse_skill_document_tags (field_or_nil (codes "tags") reread) ≡ (document.tags, []))
document_properties-back_example =
    document_properties-back quote document reread (unfold documents in refl)
      (read_fields-IsDecoded (document_properties document))
