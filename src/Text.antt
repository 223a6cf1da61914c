-- ===== src/Text.antt =====
-- What the program uses of Go's `strings` package, on byte strings.
-- A white-space rune (`unicode.IsSpace`) is recognised by its UTF-8 bytes.
pub mod Sort
pub mod Order
pub mod Utf8
pub mod Trim
pub mod Runes
use agentskills_go.Base.{
  ℕ, zero, suc, Bytes, Bool, true, false, ◌&&◌, ◌||◌, [], ◌∷◌, leb, nat_beq, if◌then◌else◌, ◌+◌,
}
use mathlib.Core.List.{reverse}

-- `\t \n \v \f \r` and the space.
abbrev pub is_ascii_space : ℕ → Bool
is_ascii_space a = leb 9 a && leb a 13 || nat_beq a 32

-- U+0085 and U+00A0.
abbrev pub is_space2 : ℕ → ℕ → Bool
is_space2 a b = nat_beq a 0xC2 && (nat_beq b 0x85 || nat_beq b 0xA0)

-- U+1680, U+2000 to U+200A, U+2028, U+2029, U+202F, U+205F and U+3000.
abbrev pub is_space3 : ℕ → ℕ → ℕ → Bool
is_space3 a b c =
    nat_beq a 0xE1 && nat_beq b 0x9A && nat_beq c 0x80
    || nat_beq a 0xE2
      && nat_beq b 0x80
      && (leb 0x80 c && leb c 0x8A || nat_beq c 0xA8 || nat_beq c 0xA9 || nat_beq c 0xAF)
    || nat_beq a 0xE2 && nat_beq b 0x81 && nat_beq c 0x9F
    || nat_beq a 0xE3 && nat_beq b 0x80 && nat_beq c 0x80

-- The width in bytes of the white-space rune at the front, 0 if there is none.
unfoldable pub space_width : Bytes → ℕ
space_width [] = 0
space_width (a ∷ []) = if is_ascii_space a then 1 else 0
space_width (a ∷ b ∷ []) = if is_ascii_space a then 1 else if is_space2 a b then 2 else 0
space_width (a ∷ b ∷ c ∷ s) =
    if is_ascii_space a then 1 else if is_space2 a b then 2 else if is_space3 a b c then 3 else 0

-- The same for the reversed bytes of a text: the rune at its end.
unfoldable pub last_space_width : Bytes → ℕ
last_space_width [] = 0
last_space_width (a ∷ []) = if is_ascii_space a then 1 else 0
last_space_width (a ∷ b ∷ []) = if is_ascii_space a then 1 else if is_space2 b a then 2 else 0
last_space_width (a ∷ b ∷ c ∷ s) =
    if is_ascii_space a then 1 else if is_space2 b a then 2 else if is_space3 c b a then 3 else 0

-- Drops the spaces at the front; the first argument counts the bytes left of the current space.
unfoldable pub strip : (Bytes → ℕ) → ℕ → Bytes → Bytes
strip width skip [] = []
strip width (suc k) (a ∷ s) = strip width k s
strip width zero (a ∷ s) = elim (width (a ∷ s)) [ zero ↦ a ∷ s | suc k ↦ strip width k s ]

-- `strings.TrimLeftFunc(s, unicode.IsSpace)`
unfoldable pub trim_left_space : Bytes → Bytes
unfolding strip space_width
trim_left_space s = strip space_width 0 s

-- `strings.TrimRightFunc(s, unicode.IsSpace)`
unfoldable pub trim_right_space : Bytes → Bytes
unfolding strip last_space_width
trim_right_space s = reverse (strip last_space_width 0 (reverse s))

-- `strings.TrimSpace`
unfoldable pub trim_space : Bytes → Bytes
unfolding trim_left_space trim_right_space
trim_space s = trim_right_space (trim_left_space s)

-- `strings.TrimSpace(s) == ""`
abbrev pub is_blank : Bytes → Bool
is_blank s = elim (trim_space s) [ [] ↦ true | _ ↦ false ]

-- `strings.ToLower`, as far as its result can be compared with ASCII text: ASCII capitals, and the
-- two other capitals whose lower case is ASCII, U+0130 (`i`) and U+212A (`k`). Every other byte is
-- left as it is, and stands for a rune outside ASCII on both sides.
unfoldable pub to_lower : Bytes → Bytes
to_lower [] = []
to_lower (a ∷ []) = (if leb b'A' a && leb a b'Z' then a + 32 else a) ∷ []
to_lower (a ∷ b ∷ []) =
    if nat_beq a 0xC4 && nat_beq b 0xB0
    then b'i' ∷ []
    else (if leb b'A' a && leb a b'Z' then a + 32 else a) ∷ to_lower (b ∷ [])
to_lower (a ∷ b ∷ c ∷ s) =
    let two = b'i' ∷ to_lower (c ∷ s) in
    let three = b'k' ∷ to_lower s in
    let one = (if leb b'A' a && leb a b'Z' then a + 32 else a) ∷ to_lower (b ∷ c ∷ s) in
    if nat_beq a 0xC4 && nat_beq b 0xB0
    then two
    else if nat_beq a 0xE2 && nat_beq b 0x84 && nat_beq c 0xAA
    then three
    else one
