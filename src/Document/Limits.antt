-- ===== src/Document/Limits.antt =====
-- The limits of a document, and the reasons to refuse one. A reason stands for a message of the code.
use agentskills_go.Base.{ℕ, ◌*◌, ◌^◌}

abbrev pub max_skill_document_bytes : ℕ
max_skill_document_bytes = 2 * 2 ^ 20

abbrev pub max_skill_name_bytes : ℕ
max_skill_name_bytes = 64

abbrev pub max_skill_description_bytes : ℕ
max_skill_description_bytes = 1024

abbrev pub max_skill_display_name_bytes : ℕ
max_skill_display_name_bytes = 256

abbrev pub max_skill_arguments : ℕ
max_skill_arguments = 64

abbrev pub max_skill_argument_bytes : ℕ
max_skill_argument_bytes = 4096

abbrev pub max_skill_tags : ℕ
max_skill_tags = 64

abbrev pub max_skill_tag_bytes : ℕ
max_skill_tag_bytes = 128

pub data Flaw : Type 0 where
  document_too_large document_not_utf8 document_has_nul : Flaw
  no_frontmatter unterminated_frontmatter undecodable_frontmatter : Flaw
  name_missing name_not_string name_empty name_untrimmed name_malformed name_unexpected : Flaw
  description_missing description_not_string description_empty description_untrimmed : Flaw
  description_too_long display_name_untrimmed display_name_too_long unsupported_insert : Flaw
  too_many_arguments argument_name_invalid duplicate_argument argument_too_long : Flaw
  too_many_tags tag_untrimmed tag_too_long duplicate_tag : Flaw
  body_not_utf8 body_has_nul unencodable_frontmatter : Flaw

-- A value, or the first reason found against it.
pub data Checked {ℓ} (A : Type ℓ) : Type ℓ where
  good : A → Checked A
  bad : Flaw → Checked A
