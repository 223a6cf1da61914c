-- ===== src/Artifact/Rendering.antt =====
-- What the two passes of `RenderSkillBody` do to a text.
use agentskills_go.Base.{
  ℕ, zero, suc, ◌+◌, ◌-◌, ◌≤◌, ◌<◌, Bytes, bytes_eq, nat_eq, Bool, true, false, ◌&&◌, not, List, [],
  ◌∷◌, ◌++◌, some, ◌≡◌, refl, ap, arith, nat_beq, drop, take, length, lookup, contains, set_insert,
  inl, inr, Option-cases, Option, none, ◌∙◌, ==_refl, take-append-drop, length-drop-le,
}
use agentskills_go.Artifact.Names.{
  scan_identifier, scan_identifier-split, scan_identifier-append, is_valid_skill_argument_name,
  ends_ident,
}
use agentskills_go.Artifact.Placeholders.{
  Declared, Rendered, Piece, plain, dollar_piece, brace_piece, match_brace, after_two,
  skip_re_spaces, note_used, note_unknown, render_pieces, render_dollar_placeholders,
  render_double_brace_placeholders,
}

-- A piece that writes what it consumes.
abbrev IsCopy : ℕ → Bytes → Piece → Type 0
IsCopy a s p = p.written ++ drop p.skip s ≡ a ∷ s

length-skip_re_spaces : (s : Bytes) → length (skip_re_spaces s) ≤ length s
length-skip_re_spaces [] = omega arith
length-skip_re_spaces (a ∷ s) = ground (arith, length-skip_re_spaces s)

length-after_two : (b : ℕ) (s rest : Bytes) → after_two b s ≡ some rest → length rest + 2 ≡ length s
length-after_two b [] rest h = cc
length-after_two b (x ∷ []) rest h = cc
length-after_two b (x ∷ y ∷ s) rest h = ground arith

-- A match is followed by a shorter text.
length-match_brace :
    (s : Bytes) (name rest : Bytes) → match_brace s ≡ some (name, rest) → length rest < length s
unfolding match_brace
length-match_brace s name rest h = elim (Option-cases (after_two b'{' s)) [
  | inl e ↦ ground arith
  | inr (s1, e) ↦
      let s2 = skip_re_spaces s1 in
      let n = (scan_identifier s2).1 in
      elim (Option-cases (after_two b'}' (skip_re_spaces (drop n s2)))) [
        | inl k ↦ ground arith
        | inr (end, k) ↦ ground (
          arith,
          length-after_two b'{' s s1 e,
          length-skip_re_spaces s1,
          length-drop-le n s2,
          length-skip_re_spaces (drop n s2),
          length-after_two b'}' (skip_re_spaces (drop n s2)) end k,
        )
      ]
]

-- A name that is not declared is kept as it is written.
dollar_piece-IsCopy :
    (a : ℕ) (s : Bytes) → nat_beq a b'\\' ≡ false → IsCopy a s (dollar_piece [] a s)
unfolding dollar_piece
dollar_piece-IsCopy a [] h = ground (arith, scan_identifier-split [])
dollar_piece-IsCopy a (b ∷ s) h = ground (arith, scan_identifier-split (b ∷ s))

take-copy : (n : ℕ) (a : ℕ) (s : Bytes) → 0 < n → take n (a ∷ s) ++ drop (n - 1) s ≡ a ∷ s
take-copy zero a s h = absurd (omega arith)
take-copy (suc n) a s h =
    let e : suc n - 1 ≡ n = omega arith in rw e (ap (◌∷◌ a) (take-append-drop n s))

brace_piece-IsCopy : (a : ℕ) (s : Bytes) → IsCopy a s (brace_piece [] a s)
unfolding brace_piece
brace_piece-IsCopy a s = elim (Option-cases (match_brace (a ∷ s))) [
  | inl e ↦ ground arith
  | inr ((name, rest), e) ↦
      ground (
        arith,
        take-copy (length (a ∷ s) - length rest) a s,
        length-match_brace (a ∷ s) name rest e,
      )
]

abbrev every : (ℕ → Bool) → Bytes → Bool
every p [] = true
every p (a ∷ s) = p a && every p s

-- Pieces that write what they consume leave the text as it is.
render_pieces-copy :
    (p : ℕ → Bool) (piece : ℕ → Bytes → Piece) (declared : Declared)
    → ((a : ℕ) (t : Bytes) → p a ≡ true → IsCopy a t (piece a t))
    → (k : ℕ) (s : Bytes) (used unknown : List Bytes) → every p s ≡ true
    → (render_pieces piece declared k s used unknown).text ≡ drop k s
unfolding render_pieces
render_pieces-copy p piece declared h zero [] used unknown e = refl
render_pieces-copy p piece declared h (suc k) [] used unknown e = refl
render_pieces-copy p piece declared h (suc k) (a ∷ s) used unknown e =
    render_pieces-copy p piece declared h k s used unknown (ground arith)
render_pieces-copy p piece declared h zero (a ∷ s) used unknown e =
    rw
      (render_pieces-copy p piece declared h (piece a s).skip s
        (note_used declared (piece a s).name used) (note_unknown declared (piece a s).name unknown)
        (ground arith))
      (h a s (ground arith))

every-copy : (s : Bytes) → every (λ a. true) s ≡ true
every-copy [] = refl
every-copy (a ∷ s) = every-copy s

every-contains :
    (b : ℕ) (s : Bytes) → contains b s ≡ false → every (λ a. not (nat_beq a b)) s ≡ true
every-contains b [] h = refl
every-contains b (a ∷ s) h = ground (arith, every-contains b s)

pub render_dollar-copy :
    (s : Bytes) (used unknown : List Bytes)
    → contains b'\\' s ≡ false
    → (render_dollar_placeholders s [] used unknown).text ≡ s
unfolding render_dollar_placeholders
render_dollar-copy s used unknown h =
    render_pieces-copy (λ a. not (nat_beq a b'\\')) (dollar_piece []) []
      (λ a t k. dollar_piece-IsCopy a t (ground arith)) 0 s used unknown (every-contains b'\\' s h)

pub render_double_brace-copy :
    (s : Bytes) (used unknown : List Bytes)
    → (render_double_brace_placeholders s [] used unknown).text ≡ s
unfolding render_double_brace_placeholders
render_double_brace-copy s used unknown =
    render_pieces-copy (λ a. true) (brace_piece []) [] (λ a t k. brace_piece-IsCopy a t) 0 s used
      unknown (every-copy s)

-- a text in which the first pass has nothing to do
abbrev pub is_plain : Bytes → Bool
is_plain = every (λ a. not (nat_beq a b'$') && not (nat_beq a b'\\'))

render_pieces-skip :
    (piece : ℕ → Bytes → Piece) (declared : Declared) (s rest : Bytes) (used unknown : List Bytes)
    → render_pieces piece declared (length s) (s ++ rest) used unknown
      ≡ render_pieces piece declared 0 rest used unknown
unfolding render_pieces
render_pieces-skip piece declared [] rest used unknown = refl
render_pieces-skip piece declared (a ∷ s) rest used unknown =
    render_pieces-skip piece declared s rest used unknown

dollar_piece-plain :
    (declared : Declared) (a : ℕ) (s : Bytes)
    → (not (nat_beq a b'$') && not (nat_beq a b'\\')) ≡ true
    → dollar_piece declared a s ≡ plain a
unfolding dollar_piece
dollar_piece-plain declared a [] h = ground arith
dollar_piece-plain declared a (b ∷ s) h = ground arith

dollar_piece-declared :
    (declared : Declared) (name value rest : Bytes)
    → is_valid_skill_argument_name name ≡ true
    → ends_ident rest ≡ true
    → lookup name declared ≡ some value
    → dollar_piece declared b'$' (name ++ rest)
      ≡ record { written = value; skip = length name; name = some name }
unfolding dollar_piece is_valid_skill_argument_name
dollar_piece-declared declared [] value rest v e f = absurd (ground arith)
dollar_piece-declared declared (x ∷ name) value rest v e f =
    ground (arith, scan_identifier-append (x ∷ name) rest v e)

-- The rendered text after some further text.
abbrev put_before : Bytes → Rendered → Rendered
put_before s r = record r { text = s ++ r.text }

render_dollar-name :
    (declared : Declared) (name value rest : Bytes) (used unknown : List Bytes)
    → is_valid_skill_argument_name name ≡ true
    → ends_ident rest ≡ true
    → lookup name declared ≡ some value
    → render_dollar_placeholders (b'$' ∷ name ++ rest) declared used unknown
      ≡ put_before value (render_dollar_placeholders rest declared (set_insert name used) unknown)
unfolding render_dollar_placeholders render_pieces
render_dollar-name declared name value rest used unknown v e f =
    rw
      (
        dollar_piece-declared declared name value rest v e f,
        f,
        render_pieces-skip (dollar_piece declared) declared name rest (set_insert name used)
            unknown,
      )
      refl

render_dollar-plain :
    (declared : Declared) (a : ℕ) (s : Bytes) (used unknown : List Bytes)
    → (not (nat_beq a b'$') && not (nat_beq a b'\\')) ≡ true
    → render_dollar_placeholders (a ∷ s) declared used unknown
      ≡ put_before (a ∷ []) (render_dollar_placeholders s declared used unknown)
unfolding render_dollar_placeholders render_pieces
render_dollar-plain declared a s used unknown h = rw (dollar_piece-plain declared a s h) refl

render_dollar-before :
    (declared : Declared) (before name value rest : Bytes) (used unknown : List Bytes)
    → is_plain before ≡ true
    → is_valid_skill_argument_name name ≡ true
    → ends_ident rest ≡ true
    → lookup name declared ≡ some value
    → render_dollar_placeholders (before ++ b'$' ∷ name ++ rest) declared used unknown
      ≡ put_before
          (before ++ value)
          (render_dollar_placeholders rest declared (set_insert name used) unknown)
render_dollar-before declared [] name value rest used unknown p v e f =
    render_dollar-name declared name value rest used unknown v e f
render_dollar-before declared (a ∷ before) name value rest used unknown p v e f =
    render_dollar-plain declared a (before ++ b'$' ∷ name ++ rest) used unknown (ground arith)
    ∙ ap (put_before (a ∷ []))
        (render_dollar-before declared before name value rest used unknown (ground arith) v e f)

note_used-kept :
    (declared : Declared) (met : Option Bytes) (name : Bytes) (used : List Bytes)
    → contains name used ≡ true
    → contains name (note_used declared met used) ≡ true
note_used-kept declared none name used h = h
note_used-kept declared (some met) name used h = ground (arith, bytes_eq.beq_iff met name)

-- A name that counts as used stays so.
render_pieces-used :
    (piece : ℕ → Bytes → Piece) (declared : Declared) (name : Bytes) (k : ℕ) (s : Bytes)
    (used unknown : List Bytes)
    → contains name used ≡ true
    → contains name (render_pieces piece declared k s used unknown).used ≡ true
unfolding render_pieces
render_pieces-used piece declared name zero [] used unknown h = h
render_pieces-used piece declared name (suc k) [] used unknown h = h
render_pieces-used piece declared name (suc k) (a ∷ s) used unknown h =
    render_pieces-used piece declared name k s used unknown h
render_pieces-used piece declared name zero (a ∷ s) used unknown h =
    let p = piece a s in
    render_pieces-used piece declared name p.skip s (note_used declared p.name used)
      (note_unknown declared p.name unknown) (note_used-kept declared p.name name used h)

render_dollar-used :
    (declared : Declared) (name rest : Bytes) (used unknown : List Bytes)
    → contains name (render_dollar_placeholders rest declared (set_insert name used) unknown).used
      ≡ true
unfolding render_dollar_placeholders
render_dollar-used declared name rest used unknown =
    render_pieces-used (dollar_piece declared) declared name 0 rest (set_insert name used) unknown
      (ground (arith, ==_refl name))

-- `$name` in a body, for a declared argument: the text before it is kept, the placeholder gives way
-- to the value of the argument, the rest is rendered on its own with the name among the used ones,
-- the name counts as used in the result, and the unknown names are those of the rest.
-- The text before it has no `$` and no backslash, and the rest does not continue the name.
pub render_dollar-declared :
    (declared : Declared) (before name value rest : Bytes) (used unknown : List Bytes)
    → is_plain before ≡ true
    → is_valid_skill_argument_name name ≡ true
    → ends_ident rest ≡ true
    → lookup name declared ≡ some value
    → ((render_dollar_placeholders (before ++ b'$' ∷ name ++ rest) declared used unknown).text
        ≡ before
          ++ value
          ++ (render_dollar_placeholders rest declared (set_insert name used) unknown).text)
      × (contains name
            (render_dollar_placeholders (before ++ b'$' ∷ name ++ rest) declared used unknown).used
          ≡ true)
      × ((render_dollar_placeholders (before ++ b'$' ∷ name ++ rest) declared used unknown).unknown
          ≡ (render_dollar_placeholders rest declared (set_insert name used) unknown).unknown)
render_dollar-declared declared before name value rest used unknown p v e f =
    let same = render_dollar-before declared before name value rest used unknown p v e f in
    (
      ap (λ (r : Rendered). r.text) same,
      ap (λ (r : Rendered). contains name r.used) same
          ∙ render_dollar-used declared name rest used unknown,
      ap (λ (r : Rendered). r.unknown) same,
    )
