-- ===== src/Document/Kept.antt =====
-- The arguments and tags that a parsed document keeps pass the checks of `ValidateSkillDocument`.
use agentskills_go.Base.{
  ℕ, ◌+◌, ◌≤◌, ◌<◌, Bytes, bytes_eq, true, false, List, [], ◌∷◌, ◌++◌, Option, none, some, codes,
  ◌≡◌, refl, arith, inl, inr, Bool-cases, leb, ltb, ==_refl, length, length-append, contains,
}
use agentskills_go.Artifact.Names.{is_valid_skill_argument_name}
use agentskills_go.Document.Checks.{◌or_else◌, is_untrimmed, validate_argument, validate_arguments}
use agentskills_go.Document.Items.{
  argument_text, optional_skill_argument_text, read_named, read_argument_object, read_argument,
  argument_names, keep_argument, accept_argument, arguments_loop, parse_skill_document_arguments,
}
use agentskills_go.Document.Limits.{Flaw, max_skill_arguments, max_skill_argument_bytes}
use agentskills_go.Document.Truncate.{truncate_valid_utf8-longest}
use agentskills_go.Document.Values.{get_field, text_list, value_list, skill_document_string_map}
use agentskills_go.Spec.{Value, Fields, SkillArgument}
use agentskills_go.Text.{trim_space}
use agentskills_go.Text.Trim.{trim_space_twice}

-- A trimmed text is its own trim.
pub is_untrimmed-trim_space : (s : Bytes) → is_untrimmed (trim_space s) ≡ false
is_untrimmed-trim_space s = rw (trim_space_twice s, ==_refl (trim_space s)) refl

argument_text-fits :
    (key : Bytes) (index : ℕ) (o : Option Value)
    → length (argument_text key index o).0 ≤ max_skill_argument_bytes
unfolding argument_text
argument_text-fits key index none = ground arith
argument_text-fits key index (some Value.null) = ground arith
argument_text-fits key index (some (Value.text value)) =
    elim (Bool-cases (ltb max_skill_argument_bytes (length value))) [
      | inl e ↦
          rw e
            (truncate_valid_utf8-longest value max_skill_argument_bytes (ground arith)
              (λ h. absurd (ground arith))).fits
      | inr e ↦ rw e (ground arith)
    ]
argument_text-fits key index (some (Value.scalar t)) = ground arith
argument_text-fits key index (some (Value.items t)) = ground arith
argument_text-fits key index (some (Value.texts t)) = ground arith
argument_text-fits key index (some (Value.objects t)) = ground arith
argument_text-fits key index (some (Value.object t)) = ground arith
argument_text-fits key index (some (Value.mapping t)) = ground arith

optional_skill_argument_text-fits :
    (fs : Fields) (key : Bytes) (index : ℕ)
    → length (optional_skill_argument_text fs key index).0 ≤ max_skill_argument_bytes
unfolding optional_skill_argument_text
optional_skill_argument_text-fits fs key index = argument_text-fits key index (get_field key fs)

-- an argument whose name is trimmed and whose texts fit
record IsTrim (a : SkillArgument) : Type 0 where
  trimmed : is_untrimmed a.name ≡ false
  description_fits : length a.description ≤ max_skill_argument_bytes
  default_fits : length a.default ≤ max_skill_argument_bytes

abbrev AllTrim : Option SkillArgument → Type 0
AllTrim none = Unit
AllTrim (some a) = IsTrim a

read_named-IsTrim : (index : ℕ) (fs : Fields) (o : Option Value) → AllTrim (read_named index fs o).0
unfolding read_named
read_named-IsTrim index fs none = tt
read_named-IsTrim index fs (some Value.null) = tt
read_named-IsTrim index fs (some (Value.text name)) = record {
  trimmed = is_untrimmed-trim_space name;
  description_fits = optional_skill_argument_text-fits fs (codes "description") index;
  default_fits = optional_skill_argument_text-fits fs (codes "default") index;
}
read_named-IsTrim index fs (some (Value.scalar t)) = tt
read_named-IsTrim index fs (some (Value.items t)) = tt
read_named-IsTrim index fs (some (Value.texts t)) = tt
read_named-IsTrim index fs (some (Value.objects t)) = tt
read_named-IsTrim index fs (some (Value.object t)) = tt
read_named-IsTrim index fs (some (Value.mapping t)) = tt

read_argument_object-IsTrim :
    (index : ℕ) (o : Option Fields) → AllTrim (read_argument_object index o).0
unfolding read_argument_object
read_argument_object-IsTrim index none = tt
read_argument_object-IsTrim index (some fs) =
    read_named-IsTrim index fs (get_field (codes "name") fs)

read_argument-IsTrim : (index : ℕ) (v : Value) → AllTrim (read_argument index v).0
unfolding read_argument
read_argument-IsTrim index (Value.text value) = record {
  trimmed = is_untrimmed-trim_space value;
  description_fits = ground arith;
  default_fits = ground arith;
}
read_argument-IsTrim index Value.null =
    read_argument_object-IsTrim index (skill_document_string_map Value.null)
read_argument-IsTrim index (Value.scalar t) =
    read_argument_object-IsTrim index (skill_document_string_map (Value.scalar t))
read_argument-IsTrim index (Value.items t) =
    read_argument_object-IsTrim index (skill_document_string_map (Value.items t))
read_argument-IsTrim index (Value.texts t) =
    read_argument_object-IsTrim index (skill_document_string_map (Value.texts t))
read_argument-IsTrim index (Value.objects t) =
    read_argument_object-IsTrim index (skill_document_string_map (Value.objects t))
read_argument-IsTrim index (Value.object t) =
    read_argument_object-IsTrim index (skill_document_string_map (Value.object t))
read_argument-IsTrim index (Value.mapping t) =
    read_argument_object-IsTrim index (skill_document_string_map (Value.mapping t))

pub or_else_none : (o p : Option Flaw) → (o or_else p) ≡ none → (o ≡ none) × (p ≡ none)
or_else_none none p h = (refl, h)
or_else_none (some f) p h = absurd (ground arith)

validate_argument-none :
    (seen : List Bytes) (a : SkillArgument)
    → IsTrim a
    → is_valid_skill_argument_name a.name ≡ true
    → contains a.name seen ≡ false
    → validate_argument seen a ≡ none
unfolding validate_argument
validate_argument-none seen a t v s =
    let d = t.description_fits in let f = t.default_fits in rw (t.trimmed, v, s) (ground arith)

-- An argument with a new name joins checked ones.
validate_arguments-append :
    (seen : List Bytes) (args : List SkillArgument) (a : SkillArgument)
    → IsTrim a
    → is_valid_skill_argument_name a.name ≡ true
    → contains a.name seen ≡ false
    → contains a.name (argument_names args) ≡ false
    → validate_arguments seen args ≡ none
    → validate_arguments seen (args ++ (a ∷ [])) ≡ none
unfolding validate_arguments
validate_arguments-append seen [] a t v s c h = rw (validate_argument-none seen a t v s) refl
validate_arguments-append seen (b ∷ args) a t v s c h =
    let (x, y) =
      or_else_none (validate_argument seen b) (validate_arguments (b.name ∷ seen) args) h in
    rw x (validate_arguments-append (b.name ∷ seen) args a t v (ground arith) (ground arith) y)

-- the arguments kept so far
abbrev pub AreChecked : List SkillArgument → Type 0
AreChecked args = (length args ≤ max_skill_arguments) × (validate_arguments [] args ≡ none)

keep_argument-AreChecked :
    (index : ℕ) (output : List SkillArgument) (o : Option SkillArgument) (w : List Bytes)
    → length output < max_skill_arguments
    → AllTrim o
    → AreChecked output
    → AreChecked (keep_argument index output o w).0
unfolding keep_argument
keep_argument-AreChecked index output none w l t c = c
keep_argument-AreChecked index output (some a) w l t c =
    elim (Bool-cases (is_valid_skill_argument_name a.name)) [
      | inl v ↦ elim (Bool-cases (contains a.name (argument_names output))) [
        | inl d ↦ rw (v, d) c
        | inr d ↦
            rw (v, d)
              (
                omega (arith, l, length-append output (a ∷ [])),
                validate_arguments-append [] output a t v refl d c.1,
              )
      ]
      | inr v ↦ rw v c
    ]

arguments_loop-AreChecked :
    (index : ℕ) (output : List SkillArgument) (w : List Bytes) (vs : List Value)
    → AreChecked output
    → AreChecked (arguments_loop index output w vs).0
unfolding arguments_loop accept_argument
arguments_loop-AreChecked index output w [] c = c
arguments_loop-AreChecked index output w (v ∷ vs) c =
    let next = accept_argument index output v in
    elim (Bool-cases (leb max_skill_arguments (length output))) [
      | inl e ↦ rw e c
      | inr e ↦ rw e (
          arguments_loop-AreChecked (index + 1) next.0 (w ++ next.1) vs (
            keep_argument-AreChecked index output (read_argument index v).0
              (read_argument index v).1 (ground arith) (read_argument-IsTrim index v) c))
    ]

none-AreChecked : AreChecked []
none-AreChecked = (omega arith, unfold validate_arguments in refl)

-- Whatever the field holds, there are at most 64 arguments, and each passes the checks.
pub parse_skill_document_arguments-AreChecked :
    (v : Value) → AreChecked (parse_skill_document_arguments v).0
unfolding parse_skill_document_arguments
parse_skill_document_arguments-AreChecked Value.null = none-AreChecked
parse_skill_document_arguments-AreChecked (Value.text t) =
    arguments_loop-AreChecked 0 [] _ (Value.text t ∷ []) none-AreChecked
parse_skill_document_arguments-AreChecked (Value.scalar t) = none-AreChecked
parse_skill_document_arguments-AreChecked (Value.items vs) =
    arguments_loop-AreChecked 0 [] [] (value_list vs) none-AreChecked
parse_skill_document_arguments-AreChecked (Value.texts ts) =
    arguments_loop-AreChecked 0 [] [] (text_list ts) none-AreChecked
parse_skill_document_arguments-AreChecked (Value.objects fs) = none-AreChecked
parse_skill_document_arguments-AreChecked (Value.object fs) = none-AreChecked
parse_skill_document_arguments-AreChecked (Value.mapping ps) = none-AreChecked
