-- ===== src/Artifact/Body.antt =====
-- `RenderSkillBody` and `uniqueSortedStrings`.
use agentskills_go.Base.{
  Bytes, bytes_eq, true, false, List, [], ◌∷◌, ◌++◌, none, some, if◌then◌else◌, lookup, map_insert,
  set_insert, ◌==◌, codes,
}
use agentskills_go.Artifact.Names.{is_valid_skill_argument_name}
use agentskills_go.Artifact.Placeholders.{
  Declared, Rendered, render_dollar_placeholders, render_double_brace_placeholders,
}
use agentskills_go.Spec.{SkillArgument}
use agentskills_go.Text.{trim_space}
use agentskills_go.Text.Sort.{sort_strings}

pub record RenderSkillBodyResult : Type 0 where
  pub text : Bytes
  pub applied_arguments : Declared
  pub unknown_placeholders : List Bytes
  pub warnings : List Bytes

-- the set of the trimmed strings that are not blank
unfoldable pub trimmed_set : List Bytes → List Bytes
trimmed_set [] = []
trimmed_set (s ∷ ss) =
    let rest = trimmed_set ss in if trim_space s == [] then rest else set_insert (trim_space s) rest

unfoldable pub unique_sorted_strings : List Bytes → List Bytes
unique_sorted_strings l = sort_strings (trimmed_set l)

abbrev pub invalid_argument_warning : Bytes → Bytes
invalid_argument_warning name = codes "invalid argument name ignored: " ++ name

abbrev pub duplicate_argument_warning : Bytes → Bytes
duplicate_argument_warning name = codes "duplicate argument ignored: " ++ name

abbrev pub unknown_placeholder_warning : Bytes → Bytes
unknown_placeholder_warning name = codes "unknown placeholder left unchanged: " ++ name

-- the value supplied for an argument, else its default
abbrev pub argument_value : SkillArgument → Declared → Bytes
argument_value a values = elim (lookup (trim_space a.name) values) [
  | none ↦ a.default
  | some supplied ↦ supplied
]

-- The loop over the arguments: the map `declared` (its keys are `seenArgs`) and the warnings.
unfoldable pub declare_arguments :
    List SkillArgument → Declared → Declared → List Bytes → Declared × List Bytes
declare_arguments [] values declared warnings = (declared, warnings)
declare_arguments (a ∷ rest) values declared warnings =
    let name = trim_space a.name in
    elim (is_valid_skill_argument_name name) [
      | false ↦
          declare_arguments rest values declared
            (if name == [] then warnings else warnings ++ invalid_argument_warning name ∷ [])
      | true ↦ elim (lookup name declared) [
        | some w ↦
            declare_arguments rest values declared
              (warnings ++ duplicate_argument_warning name ∷ [])
        | none ↦
            declare_arguments rest values (map_insert name (argument_value a values) declared)
              warnings
      ]
    ]

abbrev pub unknown_warnings : List Bytes → List Bytes
unknown_warnings [] = []
unknown_warnings (name ∷ names) = unknown_placeholder_warning name ∷ unknown_warnings names

-- Both passes over the body; the second reads what the first has written.
unfoldable pub render_passes : Bytes → Declared → Rendered
render_passes body declared =
    let first = render_dollar_placeholders body declared [] [] in
    render_double_brace_placeholders first.text declared first.used first.unknown

unfoldable pub render_skill_body : Bytes → List SkillArgument → Declared → RenderSkillBodyResult
render_skill_body body arguments values =
    let (declared, warnings) = declare_arguments arguments values [] [] in
    let rendered = render_passes body declared in
    record {
      text = rendered.text;
      applied_arguments = declared;
      unknown_placeholders = sort_strings rendered.unknown;
      warnings = unique_sorted_strings (warnings ++ unknown_warnings rendered.unknown);
    }
