-- ===== src/Artifact/Placeholders.antt =====
-- `renderDollarPlaceholders` and `renderDoubleBracePlaceholders`. A loop over an index that may
-- advance by more than one byte is a recursion over the text with the number of bytes to skip.
use agentskills_go.Base.{
  ℕ, zero, suc, ◌-◌, Bytes, bytes_eq, Bool, false, ◌&&◌, ◌||◌, List, [], ◌∷◌, ◌++◌, Option, none,
  some, nat_beq, if◌then◌else◌, drop, take, length, lookup, is_some, set_insert,
}
use agentskills_go.Artifact.Names.{scan_identifier}

-- the text written, and the names of the maps `used` and `unknown`
pub record Rendered : Type 0 where
  pub text : Bytes
  pub used : List Bytes
  pub unknown : List Bytes

abbrev pub Declared : Type 0
Declared = List (Bytes × Bytes)

-- What one round writes, how many further bytes it consumes, and the name that it met.
pub record Piece : Type 0 where
  pub written : Bytes
  pub skip : ℕ
  pub name : Option Bytes

abbrev pub plain : ℕ → Piece
plain a = record { written = a ∷ []; skip = 0; name = none }

-- `\$`
abbrev pub is_escape : ℕ → Bytes → Bool
is_escape a [] = false
is_escape a (b ∷ s) = nat_beq a b'\\' && nat_beq b b'$'

-- One round of the `$` loop at the byte `a`, with what follows it.
unfoldable pub dollar_piece : Declared → ℕ → Bytes → Piece
dollar_piece declared a s =
    let (name, n) = scan_identifier s in
    if is_escape a s
    then (record { written = b'$' ∷ []; skip = 1; name = none })
    else if nat_beq a b'$'
    then (if nat_beq n 0 then plain a else elim (lookup name declared) [
      | some value ↦ record { written = value; skip = n; name = some name }
      | none ↦ record { written = b'$' ∷ name; skip = n; name = some name }
    ])
    else plain a

-- `\s` of the regular expression
abbrev pub is_re_space : ℕ → Bool
is_re_space a = nat_beq a 9 || nat_beq a 10 || nat_beq a 12 || nat_beq a 13 || nat_beq a 32

abbrev pub skip_re_spaces : Bytes → Bytes
skip_re_spaces [] = []
skip_re_spaces (a ∷ s) = let rest = skip_re_spaces s in if is_re_space a then rest else a ∷ s

-- `s` without two bytes `b` at its front
abbrev pub after_two : ℕ → Bytes → Option Bytes
after_two b [] = none
after_two b (x ∷ []) = none
after_two b (x ∷ y ∷ s) = if nat_beq x b && nat_beq y b then some s else none

-- A match of `\{\{\s*([A-Za-z_][A-Za-z0-9_]*)\s*\}\}` at the front: its name, and what follows it.
unfoldable pub match_brace : Bytes → Option (Bytes × Bytes)
match_brace s = elim (after_two b'{' s) [
  | none ↦ none
  | some s1 ↦
      let s2 = skip_re_spaces s1 in
      let (name, n) = scan_identifier s2 in
      if nat_beq n 0 then none else elim (after_two b'}' (skip_re_spaces (drop n s2))) [
        | none ↦ none
        | some rest ↦ some (name, rest)
      ]
]

-- One step of the replacement at the byte `a`: a match is replaced, or kept as it is.
unfoldable pub brace_piece : Declared → ℕ → Bytes → Piece
brace_piece declared a s = elim (match_brace (a ∷ s)) [
  | none ↦ plain a
  | some (name, rest) ↦
      let n = length (a ∷ s) - length rest in
      elim (lookup name declared) [
        | some value ↦ record { written = value; skip = n - 1; name = some name }
        | none ↦ record { written = take n (a ∷ s); skip = n - 1; name = some name }
      ]
]

-- the maps after a round
abbrev pub note_used : Declared → Option Bytes → List Bytes → List Bytes
note_used declared none used = used
note_used declared (some name) used =
    if is_some (lookup name declared) then set_insert name used else used

abbrev pub note_unknown : Declared → Option Bytes → List Bytes → List Bytes
note_unknown declared none unknown = unknown
note_unknown declared (some name) unknown =
    if is_some (lookup name declared) then unknown else set_insert name unknown

-- Both loops: pieces from left to right.
unfoldable pub render_pieces :
    (ℕ → Bytes → Piece) → Declared → ℕ → Bytes → List Bytes → List Bytes → Rendered
render_pieces piece declared skip [] used unknown = record {
  text = [];
  used = used;
  unknown = unknown;
}
render_pieces piece declared (suc k) (a ∷ s) used unknown =
    render_pieces piece declared k s used unknown
render_pieces piece declared zero (a ∷ s) used unknown =
    let p = piece a s in
    let rest =
      render_pieces piece declared p.skip s (note_used declared p.name used)
        (note_unknown declared p.name unknown) in
    record { text = p.written ++ rest.text; used = rest.used; unknown = rest.unknown }

unfoldable pub render_dollar_placeholders : Bytes → Declared → List Bytes → List Bytes → Rendered
render_dollar_placeholders s declared used unknown =
    render_pieces (dollar_piece declared) declared 0 s used unknown

unfoldable pub render_double_brace_placeholders :
    Bytes → Declared → List Bytes → List Bytes → Rendered
render_double_brace_placeholders s declared used unknown =
    render_pieces (brace_piece declared) declared 0 s used unknown
