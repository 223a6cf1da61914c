-- ===== src/Text/Utf8.antt =====
-- `utf8.Valid`: a text is a sequence of encoded runes.
use agentskills_go.Base.{
  ℕ, zero, suc, Bytes, Bool, true, false, ◌&&◌, ◌||◌, [], ◌∷◌, leb, ltb, nat_beq, if◌then◌else◌,
}

abbrev pub in_range : ℕ → ℕ → ℕ → Bool
in_range lo hi b = leb lo b && leb b hi

-- a continuation byte
abbrev pub is_continuation : ℕ → Bool
is_continuation b = in_range 0x80 0xBF b

-- whether `b` may follow the first byte `a` of a rune of three bytes
abbrev pub second_of_three : ℕ → ℕ → Bool
second_of_three a b =
    nat_beq a 0xE0 && in_range 0xA0 0xBF b
    || nat_beq a 0xED && in_range 0x80 0x9F b
    || (in_range 0xE1 0xEC a || in_range 0xEE 0xEF a) && is_continuation b

abbrev pub second_of_four : ℕ → ℕ → Bool
second_of_four a b =
    nat_beq a 0xF0 && in_range 0x90 0xBF b
    || nat_beq a 0xF4 && in_range 0x80 0x8F b
    || in_range 0xF1 0xF3 a && is_continuation b

abbrev pub starts_two : ℕ → Bytes → Bool
starts_two a [] = false
starts_two a (b ∷ s) = in_range 0xC2 0xDF a && is_continuation b

abbrev pub starts_three : ℕ → Bytes → Bool
starts_three a [] = false
starts_three a (b ∷ []) = false
starts_three a (b ∷ c ∷ s) = second_of_three a b && is_continuation c

abbrev pub starts_four : ℕ → Bytes → Bool
starts_four a [] = false
starts_four a (b ∷ []) = false
starts_four a (b ∷ c ∷ []) = false
starts_four a (b ∷ c ∷ d ∷ s) = second_of_four a b && is_continuation c && is_continuation d

-- The width of the rune that starts with `a`, 0 if none does.
unfoldable pub rune_width : ℕ → Bytes → ℕ
rune_width a s =
    if ltb a 0x80
    then 1
    else if starts_two a s
    then 2
    else if starts_three a s
    then 3
    else if starts_four a s
    then 4
    else 0

-- The first argument counts the bytes left of the current rune.
unfoldable pub valid_from : ℕ → Bytes → Bool
valid_from k [] = true
valid_from (suc k) (a ∷ s) = valid_from k s
valid_from zero (a ∷ s) = elim (rune_width a s) [ zero ↦ false | suc k ↦ valid_from k s ]

unfoldable pub valid_utf8 : Bytes → Bool
valid_utf8 s = valid_from 0 s
