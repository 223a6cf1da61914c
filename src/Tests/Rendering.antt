-- ===== src/Tests/Rendering.antt =====
-- Skill bodies with placeholders.
use agentskills_go.Base.{
  Bytes, bytes_eq, nat_eq, List, [], ◌∷◌, ◌++◌, codes, ◌≡◌, refl, set_insert, contains, true,
}
use agentskills_go.Artifact.Body.{render_skill_body}
use agentskills_go.Artifact.Placeholders.{Rendered, render_dollar_placeholders}
use agentskills_go.Artifact.Rendering.{render_dollar-declared}
use agentskills_go.Artifact.Results.{render_skill_body-undeclared}
use agentskills_go.Spec.{SkillArgument}
use agentskills_go.Tests.Data.{program}

abbrev arguments : List SkillArgument
arguments =
    record { name = codes " who "; description = []; default = codes "you" }
    ∷ record { name = codes "who"; description = []; default = codes "me" }
    ∷ record { name = codes "2nd"; description = []; default = [] }
    ∷ []

abbrev body : Bytes
body = codes "Hi $who, {{ who }} and $other"

greeting : render_skill_body body arguments [] ≡ record {
  text = codes "Hi you, you and $other";
  applied_arguments = (codes "who", codes "you") ∷ [];
  unknown_placeholders = codes "other" ∷ [];
  warnings =
      codes "duplicate argument ignored: who"
      ∷ codes "invalid argument name ignored: 2nd"
      ∷ codes "unknown placeholder left unchanged: other"
      ∷ [];
}
unfolding program
greeting = refl

-- A value that the first pass has written is read again by the second.
written_twice :
    (render_skill_body
      (codes "$a")
      (record { name = codes "a"; description = []; default = codes "{{b}}" }
        ∷ record { name = codes "b"; description = []; default = codes "B" }
        ∷ [])
      []).text
    ≡ codes "B"
unfolding program
written_twice = refl

escaped : (render_skill_body (codes "\\$who") arguments []).text ≡ codes "$who"
unfolding program
escaped = refl

abbrev greeted : Rendered
greeted =
    render_dollar_placeholders (codes "Hi " ++ b'$' ∷ codes "who" ++ codes ", {{ who }}")
      ((codes "who", codes "you") ∷ []) [] []

abbrev after_name : Rendered
after_name =
    render_dollar_placeholders (codes ", {{ who }}") ((codes "who", codes "you") ∷ [])
      (set_insert (codes "who") []) []

render_dollar-declared_example :
    (greeted.text ≡ codes "Hi " ++ codes "you" ++ after_name.text)
    × (contains (codes "who") greeted.used ≡ true)
    × (greeted.unknown ≡ after_name.unknown)
unfolding program
render_dollar-declared_example =
    render_dollar-declared ((codes "who", codes "you") ∷ []) (codes "Hi ") (codes "who")
      (codes "you") (codes ", {{ who }}") [] [] refl refl refl refl

render_skill_body-undeclared_example : (render_skill_body body [] []).text ≡ body
unfolding program
render_skill_body-undeclared_example = render_skill_body-undeclared body [] refl
