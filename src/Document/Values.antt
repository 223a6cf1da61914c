-- ===== src/Document/Values.antt =====
-- The fields of decoded frontmatter, and copies of them.
use agentskills_go.Base.{
  ℕ, zero, suc, ◌+◌, ◌/◌, ◌%◌, Bytes, bytes_eq, List, [], ◌∷◌, Option, none, some, ltb,
  if◌then◌else◌, ◌==◌,
}
use agentskills_go.Spec.{Value, Values, Fields, Pairs}

-- `v, exists := properties[key]`
unfoldable pub get_field : Bytes → Fields → Option Value
get_field key Fields.end = none
get_field key (Fields.field k v fs) = if k == key then some v else get_field key fs

-- `properties[key]`, nil if it is missing
unfoldable pub field_or_nil : Bytes → Fields → Value
field_or_nil key fs = elim (get_field key fs) [ none ↦ Value.null | some v ↦ v ]

-- `properties[key] = v`
unfoldable pub set_field : Bytes → Value → Fields → Fields
set_field key v Fields.end = Fields.field key v Fields.end
set_field key v (Fields.field k w fs) =
    let rest = set_field key v fs in
    if k == key then Fields.field key v fs else Fields.field k w rest

-- `delete(properties, key)`
unfoldable pub delete_field : Bytes → Fields → Fields
delete_field key Fields.end = Fields.end
delete_field key (Fields.field k v fs) =
    let rest = delete_field key fs in if k == key then rest else Fields.field k v rest

unfoldable pub value_list : Values → List Value
value_list Values.nil = []
value_list (Values.cons v vs) = v ∷ value_list vs

unfoldable pub text_list : List Bytes → List Value
text_list [] = []
text_list (t ∷ ts) = Value.text t ∷ text_list ts

-- The loop of `skillDocumentStringMap` over a `map[any]any`.
unfoldable pub string_keyed : Pairs → Option Fields
string_keyed Pairs.none = some Fields.end
string_keyed (Pairs.pair (Value.text k) v ps) = elim (string_keyed ps) [
  | none ↦ none
  | some fs ↦ some (Fields.field k v fs)
]
string_keyed (Pairs.pair _ v ps) = none

unfoldable pub skill_document_string_map : Value → Option Fields
skill_document_string_map (Value.object fs) = some fs
skill_document_string_map (Value.mapping ps) = string_keyed ps
skill_document_string_map _ = none

-- `cloneSkillDocumentMap` and `cloneSkillDocumentValue`.
unfoldable mutual
  pub clone_value : Value → Value
  clone_value (Value.object fs) = Value.object (clone_fields fs)
  clone_value (Value.mapping ps) = Value.mapping (clone_pairs ps)
  clone_value (Value.items vs) = Value.items (clone_values vs)
  clone_value (Value.texts ts) = Value.texts ts
  clone_value (Value.objects os) = Value.objects os
  clone_value Value.null = Value.null
  clone_value (Value.text t) = Value.text t
  clone_value (Value.scalar t) = Value.scalar t

  pub clone_values : Values → Values
  clone_values Values.nil = Values.nil
  clone_values (Values.cons v vs) = Values.cons (clone_value v) (clone_values vs)

  pub clone_fields : Fields → Fields
  clone_fields Fields.end = Fields.end
  clone_fields (Fields.field k v fs) = Fields.field k (clone_value v) (clone_fields fs)

  pub clone_pairs : Pairs → Pairs
  clone_pairs Pairs.none = Pairs.none
  clone_pairs (Pairs.pair k v ps) = Pairs.pair k (clone_value v) (clone_pairs ps)

-- A nil map stays nil.
unfoldable pub clone_skill_document_map : Option Fields → Option Fields
clone_skill_document_map none = none
clone_skill_document_map (some fs) = some (clone_fields fs)

-- `%d`: the digits of a number below the given one, in front of `rest`
unfoldable pub digits : ℕ → ℕ → Bytes → Bytes
digits zero n rest = rest
digits (suc k) n rest =
    let more = digits k (n / 10) ((b'0' + n % 10) ∷ rest) in
    if ltb n 10 then (b'0' + n) ∷ rest else more

unfoldable pub decimal : ℕ → Bytes
decimal n = digits (n + 1) n []
