-- ===== src/Artifact/Insert.antt =====
-- `NormalizeSkillInsert`.
use agentskills_go.Base.{Bytes, Bool, true, false, [], ◌==◌, bytes_eq, if◌then◌else◌}
use agentskills_go.Spec.{skill_insert_instructions, skill_insert_user_message}
use agentskills_go.Text.{trim_space, to_lower}

unfoldable pub normalize_skill_insert : Bytes → Bytes × Bool
normalize_skill_insert v =
    let low = to_lower (trim_space v) in
    if low == []
    then (skill_insert_instructions, true)
    else if low == skill_insert_instructions
    then (skill_insert_instructions, true)
    else if low == skill_insert_user_message
    then (skill_insert_user_message, true)
    else (skill_insert_instructions, false)
