-- ===== src/Artifact/Inserts.antt =====
-- What `NormalizeSkillInsert` returns.
use agentskills_go.Base.{Bytes, bytes_eq, true, ◌≡◌, refl, arith, ◌⊎◌, inl, inr}
use agentskills_go.Spec.{skill_insert_instructions, skill_insert_user_message}
use agentskills_go.Artifact.Insert.{normalize_skill_insert}
use agentskills_go.Text.{
  trim_space, to_lower, trim_left_space, trim_right_space, strip, space_width, last_space_width,
}

normalize-cases :
    (v : Bytes)
    → ((normalize_skill_insert v).0 ≡ skill_insert_instructions)
      ⊎ ((normalize_skill_insert v).0 ≡ skill_insert_user_message)
unfolding normalize_skill_insert
normalize-cases v = ground arith

pub normalize-instructions :
    normalize_skill_insert skill_insert_instructions ≡ (skill_insert_instructions, true)
unfolding normalize_skill_insert to_lower trim_space trim_left_space trim_right_space strip
    space_width last_space_width
normalize-instructions = refl

normalize-user_message :
    normalize_skill_insert skill_insert_user_message ≡ (skill_insert_user_message, true)
unfolding normalize_skill_insert to_lower trim_space trim_left_space trim_right_space strip
    space_width last_space_width
normalize-user_message = refl

-- Whatever the text, the normalized insert is one of the two inserts, and normalizing it again
-- accepts it and gives it back.
pub normalize_skill_insert-twice :
    (v : Bytes)
    → (normalize_skill_insert (normalize_skill_insert v).0 ≡ ((normalize_skill_insert v).0, true))
      × (((normalize_skill_insert v).0 ≡ skill_insert_instructions)
          ⊎ ((normalize_skill_insert v).0 ≡ skill_insert_user_message))
normalize_skill_insert-twice v = elim (normalize-cases v) [
  | inl e ↦ (rw e normalize-instructions, inl e)
  | inr e ↦ (rw e normalize-user_message, inr e)
]
