-- ===== src/Artifact/Results.antt =====
-- What `RenderSkillBody` returns: the arguments, the unknown placeholders and the warnings.
use agentskills_go.Base.{
  ℕ, zero, suc, Bytes, bytes_eq, nat_eq, Bool, true, false, ◌&&◌, ◌||◌, not, List, [], ◌∷◌, ◌++◌,
  Option, none, some, ◌≡◌, refl, arith, inl, inr, Bool-cases, Option-cases, if◌then◌else◌, lookup,
  map_insert, contains, ◌==◌, IsDistinct, lookup-map_insert, is_some,
}
use agentskills_go.Artifact.Names.{is_valid_skill_argument_name}
use agentskills_go.Artifact.Body.{
  trimmed_set, unique_sorted_strings, argument_value, declare_arguments, render_passes,
  render_skill_body, invalid_argument_warning, duplicate_argument_warning,
}
use agentskills_go.Artifact.Placeholders.{
  Declared, Piece, note_used, note_unknown, dollar_piece, brace_piece, render_pieces,
  render_dollar_placeholders, render_double_brace_placeholders,
}
use agentskills_go.Artifact.Rendering.{render_dollar-copy, render_double_brace-copy}
use agentskills_go.Spec.{SkillArgument}
use agentskills_go.Text.{trim_space}
use agentskills_go.Text.Sort.{IsAscending, sort_strings-IsAscending, contains-sort_strings}

-- no name of the set is declared
abbrev AreUnknown : Declared → List Bytes → Type 0
AreUnknown declared unknown = (x : Bytes) → contains x unknown ≡ true → lookup x declared ≡ none

note_unknown-AreUnknown :
    (declared : Declared) (name : Option Bytes) (unknown : List Bytes)
    → AreUnknown declared unknown
    → IsDistinct unknown
    → AreUnknown declared (note_unknown declared name unknown)
      × IsDistinct (note_unknown declared name unknown)
note_unknown-AreUnknown declared none unknown h d = (h, d)
note_unknown-AreUnknown declared (some name) unknown h d = (
  (λ x k. elim (Option-cases (lookup name declared)) [
    | inl e ↦ ground (arith, h x, bytes_eq.beq_iff name x)
    | inr (v, e) ↦ ground (arith, h x)
  ]),
  ground arith,
)

render_pieces-AreUnknown :
    (piece : ℕ → Bytes → Piece) (declared : Declared) (k : ℕ) (s : Bytes)
    (used unknown : List Bytes)
    → AreUnknown declared unknown
    → IsDistinct unknown
    → AreUnknown declared (render_pieces piece declared k s used unknown).unknown
      × IsDistinct (render_pieces piece declared k s used unknown).unknown
unfolding render_pieces
render_pieces-AreUnknown piece declared zero [] used unknown h d = (h, d)
render_pieces-AreUnknown piece declared (suc k) [] used unknown h d = (h, d)
render_pieces-AreUnknown piece declared (suc k) (a ∷ s) used unknown h d =
    render_pieces-AreUnknown piece declared k s used unknown h d
render_pieces-AreUnknown piece declared zero (a ∷ s) used unknown h d =
    let (h', d') = note_unknown-AreUnknown declared (piece a s).name unknown h d in
    render_pieces-AreUnknown piece declared (piece a s).skip s
      (note_used declared (piece a s).name used) (note_unknown declared (piece a s).name unknown) h'
      d'

render_passes-AreUnknown :
    (body : Bytes) (declared : Declared)
    → AreUnknown declared (render_passes body declared).unknown
      × IsDistinct (render_passes body declared).unknown
unfolding render_passes render_dollar_placeholders render_double_brace_placeholders
render_passes-AreUnknown body declared =
    let first = render_dollar_placeholders body declared [] [] in
    let (h, d) =
      render_pieces-AreUnknown (dollar_piece declared) declared 0 body [] []
        (λ x k. absurd (ground arith)) tt in
    render_pieces-AreUnknown (brace_piece declared) declared 0 first.text first.used first.unknown h
      d

-- The unknown placeholders of a rendered body stand in strictly ascending order, and none of them
-- is an applied argument.
pub render_skill_body-unknown :
    (body : Bytes) (arguments : List SkillArgument) (values : Declared) (x : Bytes)
    → IsAscending (render_skill_body body arguments values).unknown_placeholders
      × ((contains x (render_skill_body body arguments values).unknown_placeholders
            && is_some (lookup x (render_skill_body body arguments values).applied_arguments))
          ≡ false)
unfolding render_skill_body
render_skill_body-unknown body arguments values x =
    let declared = (declare_arguments arguments values [] []).0 in
    let (h, d) = render_passes-AreUnknown body declared in
    (
      sort_strings-IsAscending (render_passes body declared).unknown d,
      ground (arith, h x, contains-sort_strings x (render_passes body declared).unknown),
    )

-- Without declared arguments a body with no backslash is rendered as it is.
pub render_skill_body-undeclared :
    (body : Bytes) (values : Declared)
    → contains b'\\' body ≡ false
    → (render_skill_body body [] values).text ≡ body
unfolding render_skill_body declare_arguments render_passes
render_skill_body-undeclared body values h =
    let first = render_dollar_placeholders body [] [] [] in
    rw (render_double_brace-copy first.text first.used first.unknown)
      (render_dollar-copy body [] [] h)

-- the value that an argument list and the supplied values give to a name: the first argument of
-- that name counts, names that are not valid do not
abbrev pub expected_value : List SkillArgument → Declared → Bytes → Option Bytes
expected_value [] values x = none
expected_value (a ∷ rest) values x =
    let later = expected_value rest values x in
    if is_valid_skill_argument_name x && trim_space a.name == x
    then some (argument_value a values)
    else later

abbrev first_of : Option Bytes → Option Bytes → Option Bytes
first_of none o = o
first_of (some v) o = some v

declare_arguments-lookup :
    (arguments : List SkillArgument) (values declared : Declared) (warnings : List Bytes)
    (x : Bytes)
    → lookup x (declare_arguments arguments values declared warnings).0
      ≡ first_of (lookup x declared) (expected_value arguments values x)
unfolding declare_arguments
declare_arguments-lookup [] values declared warnings x = elim (Option-cases (lookup x declared)) [
  | inl e ↦ ground arith
  | inr (v, e) ↦ ground arith
]
declare_arguments-lookup (a ∷ rest) values declared warnings x =
    let name = trim_space a.name in
    elim (Bool-cases (is_valid_skill_argument_name name)) [
      | inl e ↦ elim (Option-cases (lookup name declared)) [
        | inl n ↦ ground (
          arith,
          bytes_eq.beq_iff name x,
          lookup-map_insert name x (argument_value a values) declared,
          declare_arguments-lookup rest values (map_insert name (argument_value a values) declared)
              warnings x,
        )
        | inr (w, n) ↦ ground (
          arith,
          bytes_eq.beq_iff name x,
          declare_arguments-lookup rest values declared
              (warnings ++ duplicate_argument_warning name ∷ []) x,
        )
      ]
      | inr e ↦ ground (
        arith,
        bytes_eq.beq_iff name x,
        declare_arguments-lookup rest values declared
            (if name == [] then warnings else warnings ++ invalid_argument_warning name ∷ []) x,
      )
    ]

-- A name has among the applied arguments the value of the first argument of that trimmed name: the
-- supplied one, else the default. A name that is not a valid identifier has none.
pub render_skill_body-applied :
    (body : Bytes) (arguments : List SkillArgument) (values : Declared) (x : Bytes)
    → lookup x (render_skill_body body arguments values).applied_arguments
      ≡ expected_value arguments values x
unfolding render_skill_body
render_skill_body-applied body arguments values x =
    declare_arguments-lookup arguments values [] [] x

trimmed_set-IsDistinct : (l : List Bytes) → IsDistinct (trimmed_set l)
unfolding trimmed_set
trimmed_set-IsDistinct [] = tt
trimmed_set-IsDistinct (s ∷ l) = ground (arith, trimmed_set-IsDistinct l)

-- one of the strings is `x` but for white space around it
abbrev pub has_trimmed : Bytes → List Bytes → Bool
has_trimmed x [] = false
has_trimmed x (s ∷ l) = trim_space s == x || has_trimmed x l

contains-trimmed_set :
    (x : Bytes) (l : List Bytes) → contains x (trimmed_set l) ≡ (has_trimmed x l && not (x == []))
unfolding trimmed_set
contains-trimmed_set x [] = refl
contains-trimmed_set x (s ∷ l) = ground (
  arith,
  contains-trimmed_set x l,
  bytes_eq.beq_iff (trim_space s) x,
  bytes_eq.beq_iff (trim_space s) [],
  bytes_eq.beq_iff x [],
)

-- `uniqueSortedStrings` returns strings in strictly ascending order, which are exactly the trimmed
-- strings of its argument that are not blank.
pub unique_sorted_strings_lem :
    (l : List Bytes)
    → IsAscending (unique_sorted_strings l)
      × ((x : Bytes) → contains x (unique_sorted_strings l) ≡ (has_trimmed x l && not (x == [])))
unfolding unique_sorted_strings
unique_sorted_strings_lem l = (
  sort_strings-IsAscending (trimmed_set l) (trimmed_set-IsDistinct l),
  λ x. ground (arith, contains-sort_strings x (trimmed_set l), contains-trimmed_set x l),
)
