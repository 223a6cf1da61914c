-- ===== src/Catalog/Filters.antt =====
-- internal/catalog/prompt.go: the filters of the listings.
use agentskills_go.Base.{
  Bytes, bytes_eq, Bool, true, false, ◌&&◌, ◌||◌, not, List, [], ◌∷◌, contains, ◌==◌, leb, take,
  length, if◌then◌else◌,
}
use agentskills_go.Artifact.Insert.{normalize_skill_insert}
use agentskills_go.Catalog.State.{Entry}
use agentskills_go.Spec.{SkillDef, def_eq}

pub record PromptFilter : Type 0 where
  pub types : List Bytes
  pub llm_name_prefix : Bytes
  pub location_prefix : Bytes
  pub inserts : List Bytes
  pub allow_defs : List SkillDef

pub record UserFilter : Type 0 where
  pub types : List Bytes
  pub name_prefix : Bytes
  pub location_prefix : Bytes
  pub allow_defs : List SkillDef
  pub inserts : List Bytes

-- An empty list allows everything.
abbrev pub is_nil {ℓ} : {A : Type ℓ} → List A → Bool
is_nil [] = true
is_nil (x ∷ xs) = false

-- An empty prefix allows everything; a text shorter than the prefix is refused.
unfoldable pub prefix_allows : Bytes → Bytes → Bool
prefix_allows prefix s =
    if not (is_nil prefix) && leb (length prefix) (length s)
    then take (length prefix) s == prefix
    else is_nil prefix

-- whether a candidate is accepted and means the insert `norm`
unfoldable pub some_insert : List Bytes → Bytes → Bool
some_insert [] norm = false
some_insert (candidate ∷ rest) norm =
    (normalize_skill_insert candidate).1 && (normalize_skill_insert candidate).0 == norm
    || some_insert rest norm

unfoldable pub insert_matches : List Bytes → Bytes → Bool
insert_matches allowed actual =
    if not (normalize_skill_insert actual).1
    then false
    else some_insert allowed (normalize_skill_insert actual).0

-- `PromptFilter.match`
unfoldable pub prompt_match : PromptFilter → Entry → Bool
prompt_match f e =
    if not (is_nil f.allow_defs) && not (contains e.def f.allow_defs)
    then false
    else if not (is_nil f.types) && not (contains e.idx.key.type f.types)
    then false
    else if not (is_nil f.inserts) && not (insert_matches f.inserts e.idx.insert)
    then false
    else if not (prefix_allows f.llm_name_prefix e.llm_name)
    then false
    else prefix_allows f.location_prefix e.def.location

-- `UserFilter.match`
unfoldable pub user_match : UserFilter → Entry → Bool
user_match f e =
    if not (is_nil f.allow_defs) && not (contains e.def f.allow_defs)
    then false
    else if not (is_nil f.types) && not (contains e.idx.key.type f.types)
    then false
    else if not (is_nil f.inserts) && not (insert_matches f.inserts e.idx.insert)
    then false
    else if not (prefix_allows f.name_prefix e.def.name)
    then false
    else prefix_allows f.location_prefix e.def.location
