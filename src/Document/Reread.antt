-- ===== src/Document/Reread.antt =====
-- The arguments and tags that `MarshalSkillDocument` writes are those that `ParseSkillDocument` reads.
use agentskills_go.Base.{
  ℕ, ◌+◌, ◌≤◌, Bytes, bytes_eq, true, false, not, ◌||◌, List, [], ◌∷◌, ◌++◌, Option, none, some,
  ◌≡◌, ◌∙◌, refl, sym, ap, arith, ltb, leb, ◌==◌, length, length-append, contains, append_assoc,
  append-nil,
}
use agentskills_go.Artifact.Names.{is_valid_skill_argument_name}
use agentskills_go.Document.Checks.{refuse_if, is_untrimmed, validate_argument, validate_arguments}
use agentskills_go.Document.Items.{
  argument_text, optional_skill_argument_text, read_named, read_argument_object, read_argument,
  argument_names, keep_argument, accept_argument, arguments_loop, parse_skill_document_arguments,
}
use agentskills_go.Document.Encoded.{object_items}
use agentskills_go.Document.Kept.{or_else_none}
use agentskills_go.Document.Limits.{
  argument_name_invalid, duplicate_argument, max_skill_arguments, max_skill_argument_bytes,
}
use agentskills_go.Document.Values.{get_field, set_field, value_list, skill_document_string_map}
use agentskills_go.Document.Write.{argument_fields, argument_values}
use agentskills_go.Spec.{Value, SkillArgument}
use agentskills_go.Text.{trim_space}

read_argument-written :
    (index : ℕ) (name description default : Bytes)
    → trim_space name ≡ name
    → ltb max_skill_argument_bytes (length description) ≡ false
    → ltb max_skill_argument_bytes (length default) ≡ false
    → read_argument index (
        Value.object
          (argument_fields (record { name = name; description = description; default = default })))
      ≡ (some (record { name = name; description = description; default = default }), [])
unfolding read_argument read_argument_object read_named skill_document_string_map argument_fields
    set_field get_field optional_skill_argument_text argument_text
read_argument-written index name [] [] t d e = rw t refl
read_argument-written index name [] (b ∷ s) t d e = rw (t, e) refl
read_argument-written index name (b ∷ s) [] t d e = rw (t, d) refl
read_argument-written index name (b ∷ s) (c ∷ u) t d e = rw (t, d, e) refl

-- What a passed check says of an argument.
record IsFine (seen : List Bytes) (a : SkillArgument) : Type 0 where
  trimmed : trim_space a.name ≡ a.name
  named : is_valid_skill_argument_name a.name ≡ true
  new : contains a.name seen ≡ false
  description_fits : ltb max_skill_argument_bytes (length a.description) ≡ false
  default_fits : ltb max_skill_argument_bytes (length a.default) ≡ false

validate_argument-IsFine :
    (seen : List Bytes) (a : SkillArgument) → validate_argument seen a ≡ none → IsFine seen a
unfolding validate_argument
validate_argument-IsFine seen a h =
    let bad_name = is_untrimmed a.name || not (is_valid_skill_argument_name a.name) in
    let (x, h1) = or_else_none (refuse_if bad_name argument_name_invalid) _ h in
    let (y, z) = or_else_none (refuse_if (contains a.name seen) duplicate_argument) _ h1 in
    record {
      trimmed = sym ((bytes_eq.beq_iff a.name (trim_space a.name)).0 (ground arith));
      named = ground arith;
      new = ground arith;
      description_fits = ground arith;
      default_fits = ground arith;
    }

keep_argument-IsFine :
    (index : ℕ) (output : List SkillArgument) (a : SkillArgument)
    → IsFine (argument_names output) a
    → keep_argument index output (some a) [] ≡ (output ++ (a ∷ []), [])
unfolding keep_argument
keep_argument-IsFine index output a f = rw (f.named, f.new) refl

accept_argument-written :
    (index : ℕ) (output : List SkillArgument) (a : SkillArgument)
    → IsFine (argument_names output) a
    → accept_argument index output (Value.object (argument_fields a)) ≡ (output ++ (a ∷ []), [])
unfolding accept_argument
accept_argument-written index output a f =
    ap (λ (r : Option SkillArgument × List Bytes). keep_argument index output r.0 r.1)
      (read_argument-written index a.name a.description a.default f.trimmed f.description_fits
        f.default_fits)
    ∙ keep_argument-IsFine index output a f

contains-argument_names :
    (k : Bytes) (args : List SkillArgument) (a : SkillArgument)
    → contains k (argument_names (args ++ (a ∷ [])))
      ≡ (a.name == k || contains k (argument_names args))
contains-argument_names k [] a = refl
contains-argument_names k (b ∷ args) a = ground (arith, contains-argument_names k args a)

arguments_loop-step :
    (index : ℕ) (output : List SkillArgument) (w : List Bytes) (v : Value) (vs : List Value)
    (next : List SkillArgument)
    → leb max_skill_arguments (length output) ≡ false
    → accept_argument index output v ≡ (next, [])
    → arguments_loop index output w (v ∷ vs) ≡ arguments_loop (index + 1) next w vs
unfolding arguments_loop
arguments_loop-step index output w v vs next l e = rw l (
    ap (λ (r : List SkillArgument × List Bytes). arguments_loop (index + 1) r.0 (w ++ r.1) vs) e
    ∙ ap (λ x. arguments_loop (index + 1) next x vs) (append-nil w))

arguments_loop-written :
    (index : ℕ) (output args : List SkillArgument) (w seen : List Bytes)
    → length output + length args ≤ max_skill_arguments
    → ((k : Bytes) → contains k seen ≡ contains k (argument_names output))
    → validate_arguments seen args ≡ none
    → arguments_loop index output w (value_list (object_items (argument_values args)))
      ≡ (output ++ args, w)
unfolding value_list argument_values validate_arguments
arguments_loop-written index output [] w seen l s h =
    unfold arguments_loop in ap (λ x. (x, w)) (sym (append-nil output))
arguments_loop-written index output (a ∷ args) w seen l s h =
    let (x, y) =
      or_else_none (validate_argument seen a) (validate_arguments (a.name ∷ seen) args) h in
    let f = validate_argument-IsFine seen a x in
    let fine : IsFine (argument_names output) a = record {
      trimmed = f.trimmed;
      named = f.named;
      new = sym (s a.name) ∙ f.new;
      description_fits = f.description_fits;
      default_fits = f.default_fits;
    } in
    let next = output ++ (a ∷ []) in
    let rest = value_list (object_items (argument_values args)) in
    arguments_loop-step index output w (Value.object (argument_fields a)) rest next (ground arith)
      (accept_argument-written index output a fine)
    ∙ arguments_loop-written (index + 1) next args w (a.name ∷ seen)
        (omega (arith, l, length-append output (a ∷ [])))
        (λ k. ground (arith, s k, contains-argument_names k output a)) y
    ∙ ap (λ x. (x, w)) (append_assoc output (a ∷ []) args)

-- The arguments of a checked document are read back from the list that is written for them, without a
-- warning.
pub parse_skill_document_arguments-written :
    (args : List SkillArgument)
    → length args ≤ max_skill_arguments
    → validate_arguments [] args ≡ none
    → parse_skill_document_arguments (Value.items (object_items (argument_values args)))
      ≡ (args, [])
unfolding parse_skill_document_arguments
parse_skill_document_arguments-written args l h =
    arguments_loop-written 0 [] args [] [] (omega (arith, l)) (λ k. refl) h
