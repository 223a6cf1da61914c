-- ===== src/Spec.antt =====
-- The data types that the packages share: spec/types.go, spec/provider_types.go, spec/errors.go.
-- An error is the sentinel that `errors.Is` finds in it; a provider's own error is `other`.
mod Keys
mod Frontmatter
pub use Keys.*
pub use Frontmatter.*
use agentskills_go.Base.{ℕ, ℤ, Bytes, Bool, List, Option, codes, ◌≡◌, refl, ◌⊎◌, inl, inr}

pub data Error : Type 0 where
  invalid_argument : Error
  skill_not_found : Error
  skill_already_exists : Error
  provider_not_found : Error
  skill_not_active : Error
  run_script_unsupported : Error
  session_not_found : Error
  skill_not_allowed : Error
  context_canceled : Error
  deadline_exceeded : Error
  other : Bytes → Error

-- A pair `(value, error)` of which exactly one part is meaningful.
pub data Result {ℓ} (A : Type ℓ) : Type ℓ where
  ok : A → Result A
  err : Error → Result A

pub Result-cases {ℓ} :
    {A : Type ℓ} (r : Result A) → ((a : A) × (r ≡ ok a)) ⊎ ((e : Error) × (r ≡ err e))
Result-cases (ok a) = inl (a, refl)
Result-cases (err e) = inr (e, refl)

-- A context at the moment when `ctx.Err()` is asked: `none` while it is live.
abbrev pub Ctx : Type 0
Ctx = Option Error

abbrev pub skill_insert_instructions : Bytes
skill_insert_instructions = codes "instructions"

abbrev pub skill_insert_user_message : Bytes
skill_insert_user_message = codes "user-message"

abbrev pub load_mode_replace : Bytes
load_mode_replace = codes "replace"

abbrev pub load_mode_add : Bytes
load_mode_add = codes "add"

pub record SkillArgument : Type 0 where
  pub name : Bytes
  pub description : Bytes
  pub default : Bytes

pub record SkillResourceInfo : Type 0 where
  pub has_resources : Bool
  pub total_count : ℕ
  pub locations : List Bytes
  pub more_locations : Bool

pub record ProviderSkillIndexRecord : Type 0 where
  pub key : ProviderSkillKey
  pub name : Bytes
  pub description : Bytes
  pub display_name : Bytes
  pub insert : Bytes
  pub arguments : List SkillArgument
  pub tags : List Bytes
  pub resources : SkillResourceInfo
  pub raw_frontmatter : Option Fields
  pub warnings : List Bytes
  pub digest : Bytes
  pub skill_body : Bytes

pub record SkillRecord : Type 0 where
  pub def : SkillDef
  pub name : Bytes
  pub description : Bytes
  pub display_name : Bytes
  pub insert : Bytes
  pub arguments : List SkillArgument
  pub tags : List Bytes
  pub resources : SkillResourceInfo
  pub raw_frontmatter : Option Fields
  pub warnings : List Bytes
  pub digest : Bytes

pub record LoadArgs : Type 0 where
  pub skills : List SkillHandle
  pub mode : Bytes

pub record UnloadArgs : Type 0 where
  pub skills : List SkillHandle
  pub all : Bool

pub record ReadResourceArgs : Type 0 where
  pub skill_name : Bytes
  pub skill_location : Bytes
  pub resource_location : Bytes
  pub encoding : Bytes

pub record RunScriptArgs : Type 0 where
  pub skill_name : Bytes
  pub skill_location : Bytes
  pub script_location : Bytes
  pub args : List Bytes
  pub env : List (Bytes × Bytes)
  pub work_dir : Bytes

pub record RunScriptOut : Type 0 where
  pub location : Bytes
  pub exit_code : ℤ
  pub stdout : Bytes
  pub stderr : Bytes
  pub timed_out : Bool
  pub duration_ms : ℤ

-- The `SkillProvider` interface. `Out` stands for the tool outputs of llmtools-go.
pub record SkillProvider (Out : Type 0) : Type 0 where
  pub type : Bytes
  pub index : Ctx → SkillDef → Result ProviderSkillIndexRecord
  pub load_body : Ctx → ProviderSkillKey → Result Bytes
  pub read_resource : Ctx → ProviderSkillKey → Bytes → Bytes → Result Out
  pub run_script :
      Ctx
      → ProviderSkillKey
      → Bytes
      → List Bytes
      → List (Bytes × Bytes)
      → Bytes
      → Result RunScriptOut

-- `ProviderResolver`: a nil provider and a missing one are told apart nowhere.
abbrev pub ProviderResolver : Type 0 → Type 0
ProviderResolver Out = Bytes → Option (SkillProvider Out)

abbrev pub read_resource_encoding_text : Bytes
read_resource_encoding_text = codes "text"

pub record SkillDocument : Type 0 where
  pub name : Bytes
  pub display_name : Bytes
  pub description : Bytes
  pub insert : Bytes
  pub arguments : List SkillArgument
  pub tags : List Bytes
  pub markdown_body : Bytes
  pub raw_frontmatter : Option Fields

pub record RenderSkillOut : Type 0 where
  pub name : Bytes
  pub description : Bytes
  pub display_name : Bytes
  pub insert : Bytes
  pub tags : List Bytes
  pub resources : SkillResourceInfo
  pub text : Bytes
  pub arguments : List SkillArgument
  pub applied_arguments : List (Bytes × Bytes)
  pub raw_frontmatter : Option Fields
  pub warnings : List Bytes
