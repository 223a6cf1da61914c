-- ===== src/Document/Items.antt =====
-- The optional fields: `insert`, `arguments` and `tags`.
use agentskills_go.Base.{
  ℕ, ◌+◌, Bytes, bytes_eq, not, List, [], ◌∷◌, ◌++◌, Option, none, some, codes, leb, ltb,
  if◌then◌else◌, ◌==◌, length, contains,
}
use agentskills_go.Artifact.Body.{duplicate_argument_warning}
use agentskills_go.Artifact.Insert.{normalize_skill_insert}
use agentskills_go.Artifact.Names.{is_valid_skill_argument_name}
use agentskills_go.Document.Limits.{
  max_skill_arguments, max_skill_argument_bytes, max_skill_tags, max_skill_tag_bytes,
}
use agentskills_go.Document.Lines.{truncate_valid_utf8}
use agentskills_go.Document.Values.{
  get_field, value_list, text_list, skill_document_string_map, decimal,
}
use agentskills_go.Spec.{Value, Fields, SkillArgument, skill_insert_instructions}
use agentskills_go.Text.{trim_space}

-- a value of a list and a warning about it, `frontmatter.<list>[<index>]<text>`
abbrev pub item_warning : Bytes → ℕ → Bytes → Bytes
item_warning list index text =
    codes "frontmatter." ++ (list ++ (codes "[" ++ (decimal index ++ (codes "]" ++ text))))

abbrev pub arguments_key : Bytes
arguments_key = codes "arguments"

abbrev pub tags_key : Bytes
tags_key = codes "tags"

-- `%q` of a text is an argument.
unfoldable pub parse_skill_document_insert : (Bytes → Bytes) → Value → Bytes × List Bytes
parse_skill_document_insert quote Value.null = (skill_insert_instructions, [])
parse_skill_document_insert quote (Value.text value) =
    let (insert, supported) = normalize_skill_insert value in
    if supported then (insert, []) else (
      skill_insert_instructions,
      (codes "unsupported frontmatter.insert value "
            ++ (quote value ++ codes "; defaulted to instructions"))
          ∷ [],
    )
parse_skill_document_insert quote _ = (
  skill_insert_instructions,
  codes "frontmatter.insert must be a string; defaulted to instructions" ∷ [],
)

-- The text of an optional field of an argument.
unfoldable pub argument_text : Bytes → ℕ → Option Value → Bytes × List Bytes
argument_text key index none = ([], [])
argument_text key index (some Value.null) = ([], [])
argument_text key index (some (Value.text value)) =
    if ltb max_skill_argument_bytes (length value)
    then (
      truncate_valid_utf8 value max_skill_argument_bytes,
      item_warning arguments_key index (
            codes "."
            ++ (key
                ++ (codes " was truncated to "
                    ++ (decimal max_skill_argument_bytes ++ codes " bytes"))))
          ∷ [],
    )
    else (value, [])
argument_text key index (some _) = (
  [],
  item_warning arguments_key index
        (codes "." ++ (key ++ codes " was ignored because it is not a string"))
      ∷ [],
)

unfoldable pub optional_skill_argument_text : Fields → Bytes → ℕ → Bytes × List Bytes
optional_skill_argument_text properties key index =
    argument_text key index (get_field key properties)

abbrev pub invalid_name_warning : ℕ → Bytes
invalid_name_warning index = item_warning arguments_key index (codes ".name is invalid")

-- The argument of an object, by what its name field holds.
unfoldable pub read_named : ℕ → Fields → Option Value → Option SkillArgument × List Bytes
read_named index properties (some (Value.text name)) =
    let (description, w) = optional_skill_argument_text properties (codes "description") index in
    let (default, w') = optional_skill_argument_text properties (codes "default") index in
    (
      some (record { name = trim_space name; description = description; default = default }),
      w ++ w',
    )
read_named index properties _ = (none, invalid_name_warning index ∷ [])

-- An item that is no text.
unfoldable pub read_argument_object : ℕ → Option Fields → Option SkillArgument × List Bytes
read_argument_object index none = (
  none,
  item_warning arguments_key index (codes " was ignored because it is not an object or string")
      ∷ [],
)
read_argument_object index (some properties) =
    read_named index properties (get_field (codes "name") properties)

-- The argument that an item stands for, before its name is checked.
unfoldable pub read_argument : ℕ → Value → Option SkillArgument × List Bytes
read_argument index (Value.text value) =
    (some (record { name = trim_space value; description = []; default = [] }), [])
read_argument index item = read_argument_object index (skill_document_string_map item)

abbrev pub argument_names : List SkillArgument → List Bytes
argument_names [] = []
argument_names (a ∷ args) = a.name ∷ argument_names args

-- What a round does with the argument that it has read.
unfoldable pub keep_argument :
    ℕ → List SkillArgument → Option SkillArgument → List Bytes → List SkillArgument × List Bytes
keep_argument index output none warnings = (output, warnings)
keep_argument index output (some argument) warnings =
    if not (is_valid_skill_argument_name argument.name)
    then (output, warnings ++ (invalid_name_warning index ∷ []))
    else if contains argument.name (argument_names output)
    then (output, warnings ++ (duplicate_argument_warning argument.name ∷ []))
    else (output ++ (argument ∷ []), warnings)

-- One round of the loop: `output`, whose names are `seen`, and the warnings of the round.
unfoldable pub accept_argument : ℕ → List SkillArgument → Value → List SkillArgument × List Bytes
accept_argument index output item =
    let (read, warnings) = read_argument index item in keep_argument index output read warnings

abbrev pub truncated_list_warning : Bytes → ℕ → Bytes
truncated_list_warning list maximum =
    codes "frontmatter."
    ++ (list ++ (codes " was truncated to " ++ (decimal maximum ++ codes " entries")))

unfoldable pub arguments_loop :
    ℕ → List SkillArgument → List Bytes → List Value → List SkillArgument × List Bytes
arguments_loop index output warnings [] = (output, warnings)
arguments_loop index output warnings (item ∷ rest) =
    let (output', w) = accept_argument index output item in
    let more = arguments_loop (index + 1) output' (warnings ++ w) rest in
    if leb max_skill_arguments (length output)
    then (output, warnings ++ (truncated_list_warning arguments_key max_skill_arguments ∷ []))
    else more

unfoldable pub parse_skill_document_arguments : Value → List SkillArgument × List Bytes
parse_skill_document_arguments Value.null = ([], [])
parse_skill_document_arguments (Value.items vs) = arguments_loop 0 [] [] (value_list vs)
parse_skill_document_arguments (Value.texts ts) = arguments_loop 0 [] [] (text_list ts)
parse_skill_document_arguments (Value.text value) =
    arguments_loop 0 [] (codes "frontmatter.arguments string was treated as a one-item list" ∷ [])
      (Value.text value ∷ [])
parse_skill_document_arguments _ =
    ([], codes "frontmatter.arguments must be a list of objects or strings" ∷ [])

-- One round of the loop over the tags.
unfoldable pub accept_tag : ℕ → List Bytes → Value → List Bytes × List Bytes
accept_tag index output (Value.text raw) =
    let value = trim_space raw in
    if value == []
    then (output, item_warning tags_key index (codes " was ignored because it is empty") ∷ [])
    else if ltb max_skill_tag_bytes (length value)
    then (
      output,
      item_warning tags_key index (
            codes " was ignored because it exceeds "
            ++ (decimal max_skill_tag_bytes ++ codes " bytes"))
          ∷ [],
    )
    else if contains value output
    then (output, [])
    else (output ++ (value ∷ []), [])
accept_tag index output _ =
    (output, item_warning tags_key index (codes " was ignored because it is not a string") ∷ [])

unfoldable pub tags_loop : ℕ → List Bytes → List Bytes → List Value → List Bytes × List Bytes
tags_loop index output warnings [] = (output, warnings)
tags_loop index output warnings (item ∷ rest) =
    let (output', w) = accept_tag index output item in
    let more = tags_loop (index + 1) output' (warnings ++ w) rest in
    if leb max_skill_tags (length output)
    then (output, warnings ++ (truncated_list_warning tags_key max_skill_tags ∷ []))
    else more

unfoldable pub parse_skill_document_tags : Value → List Bytes × List Bytes
parse_skill_document_tags Value.null = ([], [])
parse_skill_document_tags (Value.items vs) = tags_loop 0 [] [] (value_list vs)
parse_skill_document_tags (Value.texts ts) = tags_loop 0 [] [] (text_list ts)
parse_skill_document_tags (Value.text value) =
    tags_loop 0 [] (codes "frontmatter.tags string was treated as a one-item list" ∷ [])
      (Value.text value ∷ [])
parse_skill_document_tags _ =
    ([], codes "frontmatter.tags was ignored because it is not a list or string" ∷ [])
