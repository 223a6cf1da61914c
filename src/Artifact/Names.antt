-- ===== src/Artifact/Names.antt =====
-- `IsValidSkillArgumentName` and `scanIdentifier`. A byte from 0x80 on belongs to a rune that is no
-- part of an identifier, so the loops over runes are loops over bytes.
use agentskills_go.Base.{
  ℕ, suc, Bytes, Bool, true, false, ◌&&◌, ◌||◌, [], ◌∷◌, ◌++◌, ◌≡◌, refl, arith, leb, ltb, nat_beq,
  if◌then◌else◌, drop, length,
}

unfoldable pub is_ident_start : ℕ → Bool
is_ident_start r = nat_beq r b'_' || leb b'a' r && leb r b'z' || leb b'A' r && leb r b'Z'

unfoldable pub is_ident_part : ℕ → Bool
unfolding is_ident_start
is_ident_part r = is_ident_start r || leb b'0' r && leb r b'9'

abbrev pub all_parts : Bytes → Bool
all_parts [] = true
all_parts (r ∷ s) = is_ident_part r && all_parts s

unfoldable pub is_valid_skill_argument_name : Bytes → Bool
is_valid_skill_argument_name [] = false
is_valid_skill_argument_name (r ∷ s) = is_ident_start r && all_parts s

-- the longest run of identifier bytes
abbrev pub ident_run : Bytes → Bytes
ident_run [] = []
ident_run (r ∷ s) = let rest = ident_run s in if is_ident_part r then r ∷ rest else []

-- The identifier at the front and its length; 0 if there is none.
unfoldable pub scan_identifier : Bytes → Bytes × ℕ
scan_identifier [] = ([], 0)
scan_identifier (r ∷ s) =
    if is_ident_start r then (r ∷ ident_run s, suc (length (ident_run s))) else ([], 0)

-- what stands behind the identifier does not continue it
abbrev pub ends_ident : Bytes → Bool
ends_ident [] = true
ends_ident (r ∷ s) = if is_ident_part r then false else true

ident_run-split : (s : Bytes) → ident_run s ++ drop (length (ident_run s)) s ≡ s
ident_run-split [] = refl
ident_run-split (r ∷ s) = ground (arith, ident_run-split s)

pub scan_identifier-split : (s : Bytes) → (scan_identifier s).0 ++ drop (scan_identifier s).1 s ≡ s
unfolding scan_identifier
scan_identifier-split [] = refl
scan_identifier-split (r ∷ s) = ground (arith, ident_run-split s)

ident_run-append :
    (n rest : Bytes) → all_parts n ≡ true → ends_ident rest ≡ true → ident_run (n ++ rest) ≡ n
ident_run-append [] [] a e = refl
ident_run-append [] (r ∷ rest) a e = ground arith
ident_run-append (x ∷ n) rest a e = ground (arith, ident_run-append n rest)

-- A valid name that what follows does not continue is scanned whole.
pub scan_identifier-append :
    (n rest : Bytes)
    → is_valid_skill_argument_name n ≡ true
    → ends_ident rest ≡ true
    → scan_identifier (n ++ rest) ≡ (n, length n)
unfolding scan_identifier is_valid_skill_argument_name
scan_identifier-append [] rest v e = cc
scan_identifier-append (x ∷ n) rest v e = ground (arith, ident_run-append n rest)

all_parts-ident_run : (s : Bytes) → all_parts (ident_run s) ≡ true
all_parts-ident_run [] = refl
all_parts-ident_run (r ∷ s) = ground (arith, all_parts-ident_run s)

-- What is scanned is a valid name, or nothing.
pub scan_identifier-IsValid :
    (s : Bytes)
    → (is_valid_skill_argument_name (scan_identifier s).0 ≡ ltb 0 (scan_identifier s).1)
      × ((scan_identifier s).1 ≡ length (scan_identifier s).0)
unfolding scan_identifier is_valid_skill_argument_name
scan_identifier-IsValid [] = (refl, refl)
scan_identifier-IsValid (r ∷ s) = (ground (arith, all_parts-ident_run s), ground arith)
