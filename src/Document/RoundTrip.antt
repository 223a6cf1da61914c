-- ===== src/Document/RoundTrip.antt =====
-- What `MarshalSkillDocument` writes, `ParseSkillDocument` reads.
use agentskills_go.Base.{
  Bytes, bytes_eq, nat_eq, true, false, not, List, [], ◌∷◌, none, some, codes, ◌≡◌, refl, arith,
  ltb, ◌==◌, length, ◌≤◌,
}
use agentskills_go.Artifact.Insert.{normalize_skill_insert}
use agentskills_go.Artifact.Inserts.{normalize_skill_insert-twice}
use agentskills_go.Document.Checks.{
  refuse_if, is_untrimmed, validate_skill_document_name, validate_skill_document_description,
  validate_arguments, validate_tags, validate_display_name, validate_skill_document,
}
use agentskills_go.Document.Accepted.{validate_skill_document_name-trimmed}
use agentskills_go.Document.Items.{
  parse_skill_document_insert, parse_skill_document_arguments, parse_skill_document_tags,
}
use agentskills_go.Document.Encoded.{
  IsDecoded, IsWritten, written_arguments, written_tags, document_properties-IsWritten,
}
use agentskills_go.Document.Kept.{or_else_none}
use agentskills_go.Document.Limits.{
  Flaw, good, name_missing, name_not_string, description_missing, description_not_string,
  description_empty, description_untrimmed, unsupported_insert, too_many_arguments, too_many_tags,
  max_skill_arguments, max_skill_tags,
}
use agentskills_go.Document.Parse.{required_skill_document_string, read_identity}
use agentskills_go.Document.Reread.{parse_skill_document_arguments-written}
use agentskills_go.Document.RereadTags.{parse_skill_document_tags-written}
use agentskills_go.Document.Values.{get_field, field_or_nil}
use agentskills_go.Document.Write.{document_properties}
use agentskills_go.Text.{is_blank, trim_space, trim_left_space, trim_right_space, strip}
use agentskills_go.Spec.{Value, Fields, SkillArgument, SkillDocument}

trim_same : (s : Bytes) → is_untrimmed s ≡ false → (trim_space s == s) ≡ true
trim_same s h = ground (arith, bytes_eq.beq_iff s (trim_space s), bytes_eq.beq_iff (trim_space s) s)

required_skill_document_string-written :
    (fs : Fields) (key value : Bytes) (missing not_string : Flaw)
    → get_field key fs ≡ some (Value.text value)
    → is_untrimmed value ≡ false
    → required_skill_document_string fs key missing not_string ≡ good (value, [])
unfolding required_skill_document_string
required_skill_document_string-written fs key value missing not_string g u =
    rw (g, required_skill_document_string, trim_same value u) refl

validate_skill_document_description-trimmed :
    (value : Bytes) → validate_skill_document_description value ≡ none → is_untrimmed value ≡ false
unfolding validate_skill_document_description
validate_skill_document_description-trimmed value h =
    let (_, h1) = or_else_none (refuse_if (value == []) description_empty) _ h in
    let (h2, _) = or_else_none (refuse_if (is_untrimmed value) description_untrimmed) _ h1 in
    ground arith

read_identity-written :
    (d : SkillDocument) (fs : Fields)
    → IsWritten d fs
    → validate_skill_document_name d.name ≡ none
    → validate_skill_document_description d.description ≡ none
    → read_identity [] fs ≡ good ((d.name, d.description), [])
unfolding read_identity
read_identity-written d fs w n e =
    rw
      (
        required_skill_document_string-written fs (codes "name") d.name name_missing name_not_string
            w.name (validate_skill_document_name-trimmed d.name n),
        n,
        required_skill_document_string-written fs (codes "description") d.description
            description_missing description_not_string w.description
            (validate_skill_document_description-trimmed d.description e),
        e,
        is_blank-empty,
      )
      refl
  where
    is_blank-empty : is_blank [] ≡ true
    is_blank-empty = unfold trim_space trim_left_space trim_right_space strip in refl

parse_skill_document_insert-written :
    (quote : Bytes → Bytes) (d : SkillDocument) (fs : Fields)
    → IsWritten d fs
    → parse_skill_document_insert quote (field_or_nil (codes "insert") fs)
      ≡ ((normalize_skill_insert d.insert).0, [])
unfolding field_or_nil parse_skill_document_insert
parse_skill_document_insert-written quote d fs w =
    rw (w.insert, field_or_nil, (normalize_skill_insert-twice d.insert).0) refl

parse_tags-written :
    (tags : List Bytes) (gs : Fields)
    → length tags ≤ max_skill_tags
    → validate_tags [] tags ≡ none
    → get_field (codes "tags") gs ≡ written_tags tags
    → parse_skill_document_tags (field_or_nil (codes "tags") gs) ≡ (tags, [])
unfolding field_or_nil
parse_tags-written [] gs l h e = rw (e, field_or_nil) (unfold parse_skill_document_tags in refl)
parse_tags-written (t ∷ tags) gs l h e =
    rw (e, field_or_nil) (parse_skill_document_tags-written (t ∷ tags) l h)

parse_arguments-written :
    (args : List SkillArgument) (gs : Fields)
    → length args ≤ max_skill_arguments
    → validate_arguments [] args ≡ none
    → get_field (codes "arguments") gs ≡ written_arguments args
    → parse_skill_document_arguments (field_or_nil (codes "arguments") gs) ≡ (args, [])
unfolding field_or_nil
parse_arguments-written [] gs l h e =
    rw (e, field_or_nil) (unfold parse_skill_document_arguments in refl)
parse_arguments-written (a ∷ args) gs l h e =
    rw (e, field_or_nil) (parse_skill_document_arguments-written (a ∷ args) l h)

-- The parts of a passed check that the fields need.
record IsChecked (d : SkillDocument) : Type 0 where
  name : validate_skill_document_name d.name ≡ none
  description : validate_skill_document_description d.description ≡ none
  few_arguments : length d.arguments ≤ max_skill_arguments
  arguments : validate_arguments [] d.arguments ≡ none
  few_tags : length d.tags ≤ max_skill_tags
  tags : validate_tags [] d.tags ≡ none

validate_skill_document-IsChecked :
    (d : SkillDocument) → validate_skill_document d ≡ none → IsChecked d
unfolding validate_skill_document
validate_skill_document-IsChecked d h =
    let (n, h1) = or_else_none (validate_skill_document_name d.name) _ h in
    let (e, h2) = or_else_none (validate_skill_document_description d.description) _ h1 in
    let (_, h3) = or_else_none (validate_display_name d.display_name) _ h2 in
    let (_, h4) =
      or_else_none (refuse_if (not (normalize_skill_insert d.insert).1) unsupported_insert) _ h3 in
    let (few, h5) =
      or_else_none (refuse_if (ltb max_skill_arguments (length d.arguments)) too_many_arguments) _
        h4 in
    let (a, h6) = or_else_none (validate_arguments [] d.arguments) _ h5 in
    let (few', h7) =
      or_else_none (refuse_if (ltb max_skill_tags (length d.tags)) too_many_tags) _ h6 in
    let (t, _) = or_else_none (validate_tags [] d.tags) _ h7 in
    record {
      name = n;
      description = e;
      few_arguments = ground arith;
      arguments = a;
      few_tags = ground arith;
      tags = t;
    }

-- The properties that `MarshalSkillDocument` encodes for a checked document, once decoded (strings as
-- they were, lists of strings and of maps as `[]any`, no other keys), are read by the parser as the
-- name, the description, the normalised insert, the arguments and the tags of that document, each
-- without a warning, whatever its raw frontmatter held under these keys.
pub document_properties-back :
    (quote : Bytes → Bytes) (d : SkillDocument) (gs : Fields)
    → validate_skill_document d ≡ none
    → IsDecoded (document_properties d) gs
    → (read_identity [] gs ≡ good ((d.name, d.description), []))
      × (parse_skill_document_insert quote (field_or_nil (codes "insert") gs)
          ≡ ((normalize_skill_insert d.insert).0, []))
      × (parse_skill_document_arguments (field_or_nil (codes "arguments") gs) ≡ (d.arguments, []))
      × (parse_skill_document_tags (field_or_nil (codes "tags") gs) ≡ (d.tags, []))
document_properties-back quote d gs h y =
    let c = validate_skill_document-IsChecked d h in
    let w = document_properties-IsWritten d gs y in
    (
      read_identity-written d gs w c.name c.description,
      parse_skill_document_insert-written quote d gs w,
      parse_arguments-written d.arguments gs c.few_arguments c.arguments w.arguments,
      parse_tags-written d.tags gs c.few_tags c.tags w.tags,
    )
