-- ===== src/Document/Write.antt =====
-- `MarshalSkillDocument` and `RenderSkillDocument`.
use agentskills_go.Base.{
  Bytes, bytes_eq, Bool, false, ◌&&◌, not, List, [], ◌∷◌, ◌++◌, Option, none, some, codes, ltb,
  nat_beq, if◌then◌else◌, ◌==◌, length,
}
use agentskills_go.Artifact.Body.{render_skill_body}
use agentskills_go.Artifact.Insert.{normalize_skill_insert}
use agentskills_go.Document.Checks.{validate_skill_document}
use agentskills_go.Document.Limits.{max_skill_document_bytes}
use agentskills_go.Document.Lines.{first_skill_document_heading, normalize_body}
use agentskills_go.Document.Values.{set_field, delete_field, clone_skill_document_map}
use agentskills_go.Spec.{
  Value, Objects, Fields, Error, Result, ok, err, SkillArgument, SkillDocument, SkillResourceInfo,
  RenderSkillOut,
}
use agentskills_go.Text.{trim_space}

abbrev pub optional_field : Bytes → Bytes → Fields → Fields
optional_field key value fs = if value == [] then fs else set_field key (Value.text value) fs

unfoldable pub argument_fields : SkillArgument → Fields
argument_fields a = optional_field (codes "default") a.default (
    optional_field (codes "description") a.description
      (Fields.field (codes "name") (Value.text a.name) Fields.end))

-- A `[]map[string]any`.
unfoldable pub argument_values : List SkillArgument → Objects
argument_values [] = Objects.no_objects
argument_values (a ∷ args) = Objects.one_more (argument_fields a) (argument_values args)

abbrev pub fields_or_empty : Option Fields → Fields
fields_or_empty none = Fields.end
fields_or_empty (some fs) = fs

unfoldable pub set_arguments : List SkillArgument → Fields → Fields
set_arguments [] fs = delete_field (codes "arguments") fs
set_arguments (a ∷ args) fs =
    set_field (codes "arguments") (Value.objects (argument_values (a ∷ args))) fs

unfoldable pub set_tags : List Bytes → Fields → Fields
set_tags [] fs = delete_field (codes "tags") fs
set_tags (t ∷ tags) fs = set_field (codes "tags") (Value.texts (t ∷ tags)) fs

-- The properties that are written.
unfoldable pub document_properties : SkillDocument → Fields
document_properties d = set_tags d.tags (
    set_arguments d.arguments (
      set_field (codes "insert") (Value.text (normalize_skill_insert d.insert).0) (
        set_field (codes "description") (Value.text d.description) (
          set_field (codes "name") (Value.text d.name)
            (fields_or_empty (clone_skill_document_map d.raw_frontmatter))))))

-- The body, with a heading in front if it has none and the display name is not the name.
unfoldable pub headed_body : SkillDocument → Bytes
headed_body d =
    let body = normalize_body d.markdown_body in
    let shown = trim_space d.display_name in
    let heading = codes "# " ++ shown in
    if first_skill_document_heading body == [] && (not (shown == []) && not (shown == d.name))
    then (if body == [] then heading else heading ++ (codes "\n\n" ++ body))
    else body

-- `strings.HasSuffix(body, "\n")`
abbrev pub ends_with_lf : Bytes → Bool
ends_with_lf [] = false
ends_with_lf (a ∷ []) = nat_beq a 10
ends_with_lf (a ∷ b ∷ s) = ends_with_lf (b ∷ s)

unfoldable pub written_body : Bytes → Bytes
written_body body =
    if body == []
    then []
    else codes "\n" ++ (body ++ (if ends_with_lf body then [] else codes "\n"))

unfoldable pub document_text : Bytes → Bytes → Bytes
document_text frontmatter body =
    codes "---\n" ++ (trim_space frontmatter ++ (codes "\n---\n" ++ written_body body))

-- The YAML encoder is an argument.
unfoldable pub marshal_skill_document : (Fields → Option Bytes) → SkillDocument → Result Bytes
marshal_skill_document encode d = elim (validate_skill_document d) [
  | some flaw ↦ err Error.invalid_argument
  | none ↦ elim (encode (document_properties d)) [
    | none ↦ err (Error.other (codes "encode SKILL.md frontmatter"))
    | some frontmatter ↦
        let raw = document_text frontmatter (headed_body d) in
        if ltb max_skill_document_bytes (length raw)
        then err (Error.other (codes "encoded SKILL.md exceeds the limit"))
        else ok raw
  ]
]

-- The zero value of `SkillResourceInfo`.
abbrev pub no_resources : SkillResourceInfo
no_resources = record {
  has_resources = false;
  total_count = 0;
  locations = [];
  more_locations = false;
}

unfoldable pub render_skill_document : SkillDocument → List (Bytes × Bytes) → Result RenderSkillOut
render_skill_document d values =
    let (insert, supported) = normalize_skill_insert d.insert in
    let rendered = render_skill_body d.markdown_body d.arguments values in
    let out : RenderSkillOut = record {
      name = d.name;
      description = d.description;
      display_name = if d.display_name == [] then d.name else d.display_name;
      insert = insert;
      tags = d.tags;
      resources = no_resources;
      text = rendered.text;
      arguments = d.arguments;
      applied_arguments = rendered.applied_arguments;
      raw_frontmatter = clone_skill_document_map d.raw_frontmatter;
      warnings = rendered.warnings;
    } in
    elim (validate_skill_document d) [
      | some flaw ↦ err Error.invalid_argument
      | none ↦ if supported then ok out else err Error.invalid_argument
    ]
