-- ===== src/Text/Runes.antt =====
-- What cutting and replacing ASCII bytes does to a valid text.
use agentskills_go.Base.{
  ℕ, zero, suc, Bytes, nat_eq, Bool, true, false, ◌&&◌, [], ◌∷◌, ◌++◌, ◌≡◌, refl, arith, ◌⊎◌, inl,
  inr, leb, ltb, take, length,
}
use agentskills_go.Text.Utf8.{starts_two, starts_three, rune_width, valid_from, valid_utf8}

-- `k` bytes in front that are not ASCII
abbrev pub high : ℕ → Bytes → Bool
high zero s = true
high (suc k) [] = false
high (suc k) (a ∷ s) = leb 0x80 a && high k s

-- the rune `a ∷ s` of `k + 1` bytes
pub rune_width-high : (k a : ℕ) (s : Bytes) → rune_width a s ≡ suc k → high k s ≡ true
unfolding rune_width
rune_width-high k a [] h = ground arith
rune_width-high k a (b ∷ []) h = ground arith
rune_width-high k a (b ∷ c ∷ []) h = ground arith
rune_width-high k a (b ∷ c ∷ d ∷ s) h = ground arith

rune_width-one : (a : ℕ) (s t : Bytes) → rune_width a s ≡ 1 → rune_width a t ≡ 1
unfolding rune_width
rune_width-one a s t h = ground arith

rune_width-le : (k a : ℕ) (s : Bytes) → rune_width a s ≡ suc (suc (suc (suc (suc k)))) → ⊥
unfolding rune_width
rune_width-le k a s h = absurd (ground arith)

rune_width-two : (a b : ℕ) (s t : Bytes) → rune_width a (b ∷ s) ≡ 2 → rune_width a (b ∷ t) ≡ 2
unfolding rune_width
rune_width-two a b s t h = ground arith

-- A first byte of three or four bytes is none of two.
starts_two-not : (a b : ℕ) (t : Bytes) → ltb a 0xE0 ≡ false → starts_two a (b ∷ t) ≡ false
starts_two-not a b t h = ground arith

rune_width-three-lo :
    (a b c : ℕ) (s : Bytes) → rune_width a (b ∷ c ∷ s) ≡ 3 → starts_three a (b ∷ c ∷ s) ≡ true
unfolding rune_width
rune_width-three-lo a b c s h = ground arith

starts_three-lo : (a b c : ℕ) (s : Bytes) → starts_three a (b ∷ c ∷ s) ≡ true → ltb a 0xE0 ≡ false
starts_three-lo a b c s h = ground arith

rune_width-three :
    (a b c : ℕ) (s t : Bytes) → rune_width a (b ∷ c ∷ s) ≡ 3 → rune_width a (b ∷ c ∷ t) ≡ 3
rune_width-three a b c s t h =
    let u = rune_width-three-lo a b c s h in
    let lo = starts_three-lo a b c s u in
    unfold rune_width in rw (high_first a lo, starts_two-not a b (c ∷ t) lo, u) refl
  where
    high_first : (a : ℕ) → ltb a 0xE0 ≡ false → ltb a 0x80 ≡ false
    high_first a h = ground arith

rune_width-four :
    (a b c d : ℕ) (s t : Bytes)
    → rune_width a (b ∷ c ∷ d ∷ s) ≡ 4
    → rune_width a (b ∷ c ∷ d ∷ t) ≡ 4
unfolding rune_width
rune_width-four a b c d s t h = h

-- A rune is told from its own bytes.
pub rune_width-agree :
    (k a : ℕ) (s t : Bytes)
    → rune_width a s ≡ suc k
    → take k t ≡ take k s
    → length (take k s) ≡ k
    → rune_width a t ≡ suc k
rune_width-agree zero a s t h e l = rune_width-one a s t h
rune_width-agree (suc k) a [] t h e l = absurd (omega arith)
rune_width-agree (suc k) a (b ∷ s) [] h e l = absurd (ground arith)
rune_width-agree (suc zero) a (b ∷ s) (b' ∷ t) h e l = ground (arith, rune_width-two a b s t)
rune_width-agree (suc (suc k)) a (b ∷ []) (b' ∷ t) h e l = absurd (omega arith)
rune_width-agree (suc (suc k)) a (b ∷ c ∷ s) (b' ∷ []) h e l = absurd (ground arith)
rune_width-agree (suc (suc zero)) a (b ∷ c ∷ s) (b' ∷ c' ∷ t) h e l =
    ground (arith, rune_width-three a b c s t)
rune_width-agree (suc (suc (suc k))) a (b ∷ c ∷ []) (b' ∷ c' ∷ t) h e l = absurd (omega arith)
rune_width-agree (suc (suc (suc k))) a (b ∷ c ∷ d ∷ s) (b' ∷ c' ∷ []) h e l = absurd (ground arith)
rune_width-agree (suc (suc (suc zero))) a (b ∷ c ∷ d ∷ s) (b' ∷ c' ∷ d' ∷ t) h e l =
    ground (arith, rune_width-four a b c d s t)
rune_width-agree (suc (suc (suc (suc k)))) a s t h e l = absurd (rune_width-le k a s h)

rune_width-ascii : (a : ℕ) (s : Bytes) → ltb a 0x80 ≡ true → rune_width a s ≡ 1
unfolding rune_width
rune_width-ascii a s h = ground arith

zero_or_suc : (n : ℕ) → (n ≡ 0) ⊎ ((k : ℕ) × (n ≡ suc k))
zero_or_suc zero = inl refl
zero_or_suc (suc k) = inr (k, refl)

-- one step of the check
pub valid_from-step :
    (a : ℕ) (s : Bytes)
    → valid_from 0 (a ∷ s) ≡ true
    → (k : ℕ) × (rune_width a s ≡ suc k) × (valid_from k s ≡ true)
unfolding valid_from
valid_from-step a s h = elim (zero_or_suc (rune_width a s)) [
  | inl e ↦ absurd (ground arith)
  | inr (k, e) ↦ (k, e, ground arith)
]

pub valid_from-cons :
    (k a : ℕ) (s : Bytes)
    → rune_width a s ≡ suc k
    → valid_from k s ≡ true
    → valid_from 0 (a ∷ s) ≡ true
unfolding valid_from
valid_from-cons k a s e h = ground arith

pub valid_from-ascii :
    (a : ℕ) (s : Bytes) → ltb a 0x80 ≡ true → valid_from 0 (a ∷ s) ≡ valid_from 0 s
unfolding valid_from
valid_from-ascii a s h = ground (arith, rune_width-ascii a s h)

-- What follows a line end in a valid text is valid.
valid_from-after :
    (k : ℕ) (pre rest : Bytes)
    → high k (pre ++ 10 ∷ rest) ≡ true
    → valid_from k (pre ++ 10 ∷ rest) ≡ true
    → valid_from 0 rest ≡ true
valid_from-after zero [] rest h v = ground (arith, valid_from-ascii 10 rest)
valid_from-after (suc k) [] rest h v = absurd (ground arith)
valid_from-after (suc k) (a ∷ pre) rest h v =
    valid_from-after k pre rest (ground arith) (unfold valid_from in v)
valid_from-after zero (a ∷ pre) rest h v =
    let (k, e, w) = valid_from-step a (pre ++ 10 ∷ rest) v in
    valid_from-after k pre rest (rune_width-high k a (pre ++ 10 ∷ rest) e) w

pub valid_utf8-after :
    (pre rest : Bytes) → valid_utf8 (pre ++ 10 ∷ rest) ≡ true → valid_utf8 rest ≡ true
unfolding valid_utf8
valid_utf8-after pre rest v = valid_from-after 0 pre rest refl v
