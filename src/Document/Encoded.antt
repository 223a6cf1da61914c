-- ===== src/Document/Encoded.antt =====
-- The fields that `MarshalSkillDocument` encodes.
use agentskills_go.Base.{
  Bytes, bytes_eq, nat_eq, Bool, true, false, ◌&&◌, Option, List, [], ◌∷◌, none, some, codes, ◌≡◌,
  ◌∙◌, refl, arith, if◌then◌else◌, ◌==◌,
}
use agentskills_go.Artifact.Insert.{normalize_skill_insert}
use agentskills_go.Document.Values.{get_field, set_field, delete_field, clone_skill_document_map}
use agentskills_go.Document.Write.{
  argument_fields, argument_values, fields_or_empty, set_arguments, set_tags, document_properties,
}
use agentskills_go.Spec.{Value, Values, Objects, Fields, SkillArgument, SkillDocument}

pub get_field-set_field :
    (k j : Bytes) (v : Value) (fs : Fields)
    → get_field j (set_field k v fs) ≡ (if k == j then some v else get_field j fs)
unfolding get_field set_field
get_field-set_field k j v Fields.end = refl
get_field-set_field k j v (Fields.field i w fs) = ground (
  arith,
  get_field-set_field k j v fs,
  bytes_eq.beq_iff k j,
  bytes_eq.beq_iff i k,
  bytes_eq.beq_iff i j,
)

pub get_field-delete_field :
    (k j : Bytes) (fs : Fields)
    → get_field j (delete_field k fs) ≡ (if k == j then none else get_field j fs)
unfolding get_field delete_field
get_field-delete_field k j Fields.end = ground arith
get_field-delete_field k j (Fields.field i w fs) = ground (
  arith,
  get_field-delete_field k j fs,
  bytes_eq.beq_iff k j,
  bytes_eq.beq_iff i k,
  bytes_eq.beq_iff i j,
)

pub get_field-set_tags :
    (j : Bytes) (tags : List Bytes) (fs : Fields)
    → (codes "tags" == j) ≡ false
    → get_field j (set_tags tags fs) ≡ get_field j fs
unfolding set_tags
get_field-set_tags j [] fs h = get_field-delete_field (codes "tags") j fs ∙ rw h refl
get_field-set_tags j (t ∷ tags) fs h =
    get_field-set_field (codes "tags") j (Value.texts (t ∷ tags)) fs ∙ rw h refl

pub get_field-set_arguments :
    (j : Bytes) (args : List SkillArgument) (fs : Fields)
    → (codes "arguments" == j) ≡ false
    → get_field j (set_arguments args fs) ≡ get_field j fs
unfolding set_arguments
get_field-set_arguments j [] fs h = get_field-delete_field (codes "arguments") j fs ∙ rw h refl
get_field-set_arguments j (a ∷ args) fs h =
    get_field-set_field (codes "arguments") j (Value.objects (argument_values (a ∷ args))) fs
    ∙ rw h refl

-- The fields of an argument hold texts.
abbrev pub only_texts : Fields → Bool
only_texts Fields.end = true
only_texts (Fields.field k (Value.text t) fs) = only_texts fs
only_texts (Fields.field k _ fs) = false

abbrev pub all_texts : Objects → Bool
all_texts Objects.no_objects = true
all_texts (Objects.one_more fs os) = only_texts fs && all_texts os

all_texts-argument_values : (args : List SkillArgument) → all_texts (argument_values args) ≡ true
unfolding argument_values argument_fields
all_texts-argument_values [] = refl
all_texts-argument_values (a ∷ args) =
    rw (only_texts-argument_fields a.name a.description a.default) (all_texts-argument_values args)
  where
    only_texts-argument_fields :
        (name description default : Bytes)
        → only_texts
            (argument_fields (record { name = name; description = description; default = default }))
          ≡ true
    only_texts-argument_fields name [] [] = unfold argument_fields set_field in refl
    only_texts-argument_fields name [] (b ∷ s) = unfold argument_fields set_field in refl
    only_texts-argument_fields name (b ∷ s) [] = unfold argument_fields set_field in refl
    only_texts-argument_fields name (b ∷ s) (c ∷ u) = unfold argument_fields set_field in refl

-- `[]string` and `[]map[string]any` as `[]any`
abbrev pub text_items : List Bytes → Values
text_items [] = Values.nil
text_items (t ∷ ts) = Values.cons (Value.text t) (text_items ts)

abbrev pub object_items : Objects → Values
object_items Objects.no_objects = Values.nil
object_items (Objects.one_more fs os) = Values.cons (Value.object fs) (object_items os)

-- What a YAML library does with the fields `fs` that it encodes, where `gs` are the fields that it
-- decodes from the text: a string comes back as it was, a list of strings and a list of maps of
-- strings come back as a `[]any`, and a key that is not there does not come up.
pub record IsDecoded (fs gs : Fields) : Type 0 where
  pub text :
      (k t : Bytes) → get_field k fs ≡ some (Value.text t) → get_field k gs ≡ some (Value.text t)
  pub texts :
      (k : Bytes) (ts : List Bytes)
      → get_field k fs ≡ some (Value.texts ts)
      → get_field k gs ≡ some (Value.items (text_items ts))
  pub objects :
      (k : Bytes) (os : Objects)
      → get_field k fs ≡ some (Value.objects os)
      → all_texts os ≡ true
      → get_field k gs ≡ some (Value.items (object_items os))
  pub missing : (k : Bytes) → get_field k fs ≡ none → get_field k gs ≡ none

-- the list that is decoded of arguments and of tags; an empty list is not written
abbrev pub written_arguments : List SkillArgument → Option Value
written_arguments [] = none
written_arguments (a ∷ args) = some (Value.items (object_items (argument_values (a ∷ args))))

abbrev pub written_tags : List Bytes → Option Value
written_tags [] = none
written_tags (t ∷ tags) = some (Value.items (text_items (t ∷ tags)))

-- What is decoded under the keys of a document.
pub record IsWritten (d : SkillDocument) (gs : Fields) : Type 0 where
  pub name : get_field (codes "name") gs ≡ some (Value.text d.name)
  pub description : get_field (codes "description") gs ≡ some (Value.text d.description)
  pub insert : get_field (codes "insert") gs ≡ some (Value.text (normalize_skill_insert d.insert).0)
  pub arguments : get_field (codes "arguments") gs ≡ written_arguments d.arguments
  pub tags : get_field (codes "tags") gs ≡ written_tags d.tags

decoded_arguments :
    (args : List SkillArgument) (base fs gs : Fields)
    → IsDecoded fs gs
    → get_field (codes "arguments") fs ≡ get_field (codes "arguments") (set_arguments args base)
    → get_field (codes "arguments") gs ≡ written_arguments args
unfolding set_arguments
decoded_arguments [] base fs gs y e =
    y.missing (codes "arguments")
      (e ∙ get_field-delete_field (codes "arguments") (codes "arguments") base)
decoded_arguments (a ∷ args) base fs gs y e =
    let os = argument_values (a ∷ args) in
    y.objects (codes "arguments") os
      (e ∙ get_field-set_field (codes "arguments") (codes "arguments") (Value.objects os) base)
      (all_texts-argument_values (a ∷ args))

decoded_tags :
    (tags : List Bytes) (base fs gs : Fields)
    → IsDecoded fs gs
    → get_field (codes "tags") fs ≡ get_field (codes "tags") (set_tags tags base)
    → get_field (codes "tags") gs ≡ written_tags tags
unfolding set_tags
decoded_tags [] base fs gs y e =
    y.missing (codes "tags") (e ∙ get_field-delete_field (codes "tags") (codes "tags") base)
decoded_tags (t ∷ tags) base fs gs y e =
    y.texts (codes "tags") (t ∷ tags)
      (e ∙ get_field-set_field (codes "tags") (codes "tags") (Value.texts (t ∷ tags)) base)

pub document_properties-IsWritten :
    (d : SkillDocument) (gs : Fields) → IsDecoded (document_properties d) gs → IsWritten d gs
unfolding document_properties
document_properties-IsWritten d gs y =
    let ins = Value.text (normalize_skill_insert d.insert).0 in
    let desc = Value.text d.description in
    let base = fields_or_empty (clone_skill_document_map d.raw_frontmatter) in
    let f1 = set_field (codes "name") (Value.text d.name) base in
    let f2 = set_field (codes "description") desc f1 in
    let f3 = set_field (codes "insert") ins f2 in
    let f4 = set_arguments d.arguments f3 in
    record {
      name = y.text (codes "name") d.name (
          get_field-set_tags (codes "name") d.tags f4 refl
          ∙ get_field-set_arguments (codes "name") d.arguments f3 refl
          ∙ get_field-set_field (codes "insert") (codes "name") ins f2
          ∙ get_field-set_field (codes "description") (codes "name") desc f1
          ∙ get_field-set_field (codes "name") (codes "name") (Value.text d.name) base);
      description = y.text (codes "description") d.description (
          get_field-set_tags (codes "description") d.tags f4 refl
          ∙ get_field-set_arguments (codes "description") d.arguments f3 refl
          ∙ get_field-set_field (codes "insert") (codes "description") ins f2
          ∙ get_field-set_field (codes "description") (codes "description") desc f1);
      insert = y.text (codes "insert") (normalize_skill_insert d.insert).0 (
          get_field-set_tags (codes "insert") d.tags f4 refl
          ∙ get_field-set_arguments (codes "insert") d.arguments f3 refl
          ∙ get_field-set_field (codes "insert") (codes "insert") ins f2);
      arguments =
          decoded_arguments d.arguments f3 _ gs y
            (get_field-set_tags (codes "arguments") d.tags f4 refl);
      tags = decoded_tags d.tags f4 _ gs y refl;
    }
