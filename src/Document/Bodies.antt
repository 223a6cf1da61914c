-- ===== src/Document/Bodies.antt =====
-- The normalised body: what the replacements of line ends keep.
use agentskills_go.Base.{
  ℕ, zero, suc, Bytes, nat_eq, true, false, [], ◌∷◌, ◌≡◌, ◌∙◌, refl, sym, ap, arith, inl, inr,
  Bool-cases, leb, nat_beq, nat_beq_iff, if◌then◌else◌, take, length, contains,
}
use agentskills_go.Document.Lines.{replace_crlf_lf, replace_cr_lf, trim_left_lf, normalize_body}
use agentskills_go.Text.Runes.{
  high, rune_width-high, rune_width-agree, valid_from-step, valid_from-cons, valid_from-ascii,
}
use agentskills_go.Text.Utf8.{rune_width, valid_from, valid_utf8}

length-take-high : (k : ℕ) (s : Bytes) → high k s ≡ true → length (take k s) ≡ k
length-take-high zero s h = refl
length-take-high (suc k) [] h = absurd (ground arith)
length-take-high (suc k) (a ∷ s) h = ap suc (length-take-high k s (ground arith))

-- A replacement that leaves the bytes outside ASCII as they are.
module _ (replace : Bytes → Bytes)
    (keeps : (a : ℕ) (s : Bytes) → leb 0x80 a ≡ true → replace (a ∷ s) ≡ a ∷ replace s) where
  take-replace-high : (k : ℕ) (s : Bytes) → high k s ≡ true → take k (replace s) ≡ take k s
  take-replace-high zero s h = refl
  take-replace-high (suc k) [] h = absurd (ground arith)
  take-replace-high (suc k) (a ∷ s) h =
      rw (keeps a s (ground arith)) (ap (◌∷◌ a) (take-replace-high k s (ground arith)))

  -- A rune of `k + 1` bytes before the replaced rest.
  valid_from-replaced :
      (k a : ℕ) (s : Bytes)
      → rune_width a s ≡ suc k
      → valid_from k (replace s) ≡ true
      → valid_from 0 (a ∷ replace s) ≡ true
  valid_from-replaced k a s e v =
      let h = rune_width-high k a s e in
      valid_from-cons k a (replace s)
        (rune_width-agree k a s (replace s) e (take-replace-high k s h) (length-take-high k s h)) v

replace_crlf_lf-keeps :
    (a : ℕ) (s : Bytes) → nat_beq a 13 ≡ false → replace_crlf_lf (a ∷ s) ≡ a ∷ replace_crlf_lf s
unfolding replace_crlf_lf
replace_crlf_lf-keeps a [] h = refl
replace_crlf_lf-keeps a (b ∷ s) h = ground arith

high_not : (a : ℕ) → leb 0x80 a ≡ true → nat_beq a 13 ≡ false
high_not a h = ground arith

replace_crlf_lf-high :
    (a : ℕ) (s : Bytes) → leb 0x80 a ≡ true → replace_crlf_lf (a ∷ s) ≡ a ∷ replace_crlf_lf s
replace_crlf_lf-high a s h = replace_crlf_lf-keeps a s (high_not a h)

replace_cr_lf-high :
    (a : ℕ) (s : Bytes) → leb 0x80 a ≡ true → replace_cr_lf (a ∷ s) ≡ a ∷ replace_cr_lf s
unfolding replace_cr_lf
replace_cr_lf-high a s h = rw (high_not a h) refl

valid_from-rest : (k a : ℕ) (s : Bytes) → valid_from (suc k) (a ∷ s) ≡ valid_from k s
unfolding valid_from
valid_from-rest k a s = refl

-- a carriage return, with what becomes of the rest
replaced_return :
    (b : ℕ) (s : Bytes)
    → valid_from 0 (13 ∷ b ∷ s) ≡ true
    → (valid_from 0 s ≡ true → valid_from 0 (replace_crlf_lf s) ≡ true)
    → (valid_from 0 (b ∷ s) ≡ true → valid_from 0 (replace_crlf_lf (b ∷ s)) ≡ true)
    → valid_from 0 (replace_crlf_lf (13 ∷ b ∷ s)) ≡ true
replaced_return b s v f g = elim (Bool-cases (nat_beq b 10)) [
  | inl e ↦
      unfold replace_crlf_lf in
      rw e (
        ground (
          arith,
          e,
          valid_from-ascii 10 (replace_crlf_lf s),
          valid_from-ascii 13 (b ∷ s),
          valid_from-ascii b s,
        ))
  | inr e ↦
      unfold replace_crlf_lf in
      rw e
        (ground (arith, valid_from-ascii 13 (replace_crlf_lf (b ∷ s)), valid_from-ascii 13 (b ∷ s)))
]

valid_from-replace_crlf_lf :
    (k : ℕ) (s : Bytes)
    → high k s ≡ true
    → valid_from k s ≡ true
    → valid_from k (replace_crlf_lf s) ≡ true
valid_from-replace_crlf_lf k [] h v = unfold replace_crlf_lf in v
valid_from-replace_crlf_lf (suc k) (a ∷ s) h v =
    let ih = valid_from-replace_crlf_lf k s (ground arith) (sym (valid_from-rest k a s) ∙ v) in
    rw (replace_crlf_lf-high a s (ground arith), valid_from-rest k a (replace_crlf_lf s)) ih
valid_from-replace_crlf_lf zero (a ∷ []) h v = unfold replace_crlf_lf in v
valid_from-replace_crlf_lf zero (a ∷ b ∷ s) h v = elim (Bool-cases (nat_beq a 13)) [
  | inl e ↦
      let e' = (nat_beq_iff a 13).0 e in
      rw e' (
        replaced_return b s (sym (ap (λ c. valid_from 0 (c ∷ b ∷ s)) e') ∙ v)
          (λ u. valid_from-replace_crlf_lf 0 s refl u)
          (λ u. valid_from-replace_crlf_lf 0 (b ∷ s) refl u))
  | inr e ↦
      let (k, w, u) = valid_from-step a (b ∷ s) v in
      rw (replace_crlf_lf-keeps a (b ∷ s) e) (
        valid_from-replaced replace_crlf_lf replace_crlf_lf-high k a (b ∷ s) w
          (valid_from-replace_crlf_lf k (b ∷ s) (rune_width-high k a (b ∷ s) w) u))
]

replace_cr_lf-step :
    (a : ℕ) (s : Bytes) → replace_cr_lf (a ∷ s) ≡ (if nat_beq a 13 then 10 else a) ∷ replace_cr_lf s
unfolding replace_cr_lf
replace_cr_lf-step a s = refl

valid_from-replace_cr_lf :
    (k : ℕ) (s : Bytes)
    → high k s ≡ true
    → valid_from k s ≡ true
    → valid_from k (replace_cr_lf s) ≡ true
valid_from-replace_cr_lf k [] h v = unfold replace_cr_lf in v
valid_from-replace_cr_lf (suc k) (a ∷ s) h v =
    let ih = valid_from-replace_cr_lf k s (ground arith) (sym (valid_from-rest k a s) ∙ v) in
    rw (replace_cr_lf-high a s (ground arith), valid_from-rest k a (replace_cr_lf s)) ih
valid_from-replace_cr_lf zero (a ∷ s) h v = elim (Bool-cases (nat_beq a 13)) [
  | inl e ↦
      let u : valid_from 0 s ≡ true = ground (arith, valid_from-ascii a s) in
      rw (replace_cr_lf-step a s, e)
        (valid_from-ascii 10 (replace_cr_lf s) refl ∙ valid_from-replace_cr_lf 0 s refl u)
  | inr e ↦
      let (k, w, u) = valid_from-step a s v in
      rw (replace_cr_lf-step a s, e)
        (valid_from-replaced replace_cr_lf replace_cr_lf-high k a s w
          (valid_from-replace_cr_lf k s (rune_width-high k a s w) u))
]

valid_from-trim_left_lf : (s : Bytes) → valid_from 0 s ≡ true → valid_from 0 (trim_left_lf s) ≡ true
unfolding trim_left_lf
valid_from-trim_left_lf [] v = v
valid_from-trim_left_lf (a ∷ s) v = ground (arith, valid_from-ascii a s, valid_from-trim_left_lf s)

-- A valid text has a valid body.
pub valid_utf8-normalize_body :
    (s : Bytes) → valid_utf8 s ≡ true → valid_utf8 (normalize_body s) ≡ true
unfolding valid_utf8 normalize_body
valid_utf8-normalize_body s v =
    valid_from-trim_left_lf (replace_cr_lf (replace_crlf_lf s))
      (valid_from-replace_cr_lf 0 (replace_crlf_lf s) refl (valid_from-replace_crlf_lf 0 s refl v))

contains-replace_crlf_lf :
    (s : Bytes) → contains 0 s ≡ false → contains 0 (replace_crlf_lf s) ≡ false
unfolding replace_crlf_lf
contains-replace_crlf_lf [] h = h
contains-replace_crlf_lf (a ∷ []) h = h
contains-replace_crlf_lf (a ∷ b ∷ s) h =
    ground (arith, contains-replace_crlf_lf s, contains-replace_crlf_lf (b ∷ s))

contains-replace_cr_lf : (s : Bytes) → contains 0 s ≡ false → contains 0 (replace_cr_lf s) ≡ false
unfolding replace_cr_lf
contains-replace_cr_lf [] h = h
contains-replace_cr_lf (a ∷ s) h = ground (arith, contains-replace_cr_lf s)

contains-trim_left_lf :
    (b : ℕ) (s : Bytes) → contains b s ≡ false → contains b (trim_left_lf s) ≡ false
unfolding trim_left_lf
contains-trim_left_lf b [] h = h
contains-trim_left_lf b (a ∷ s) h = ground (arith, contains-trim_left_lf b s)

-- A text with no NUL byte has a body with none.
pub contains-normalize_body :
    (s : Bytes) → contains 0 s ≡ false → contains 0 (normalize_body s) ≡ false
unfolding normalize_body
contains-normalize_body s h =
    contains-trim_left_lf 0 (replace_cr_lf (replace_crlf_lf s))
      (contains-replace_cr_lf (replace_crlf_lf s) (contains-replace_crlf_lf s h))

contains-replaced_cr : (s : Bytes) → contains 13 (replace_cr_lf s) ≡ false
unfolding replace_cr_lf
contains-replaced_cr [] = refl
contains-replaced_cr (a ∷ s) = ground (arith, contains-replaced_cr s)

pub replace_crlf_lf_none : (s : Bytes) → contains 13 s ≡ false → replace_crlf_lf s ≡ s
unfolding replace_crlf_lf
replace_crlf_lf_none [] h = refl
replace_crlf_lf_none (a ∷ []) h = refl
replace_crlf_lf_none (a ∷ b ∷ s) h = ground (arith, replace_crlf_lf_none (b ∷ s))

pub replace_cr_lf_none : (s : Bytes) → contains 13 s ≡ false → replace_cr_lf s ≡ s
unfolding replace_cr_lf
replace_cr_lf_none [] h = refl
replace_cr_lf_none (a ∷ s) h = ground (arith, replace_cr_lf_none s)

trim_left_lf_twice : (s : Bytes) → trim_left_lf (trim_left_lf s) ≡ trim_left_lf s
unfolding trim_left_lf
trim_left_lf_twice [] = refl
trim_left_lf_twice (a ∷ s) = ground (arith, trim_left_lf_twice s)

-- A normalised body has no carriage return, and normalising it again changes nothing: the body that
-- is parsed is the one that is written.
pub normalize_body-twice :
    (s : Bytes)
    → (contains 13 (normalize_body s) ≡ false)
      × (normalize_body (normalize_body s) ≡ normalize_body s)
unfolding normalize_body
normalize_body-twice s =
    let clean = replace_cr_lf (replace_crlf_lf s) in
    let c = contains-trim_left_lf 13 clean (contains-replaced_cr (replace_crlf_lf s)) in
    let t = trim_left_lf clean in
    (
      c,
      ap (λ x. trim_left_lf (replace_cr_lf x)) (replace_crlf_lf_none t c)
          ∙ ap trim_left_lf (replace_cr_lf_none t c)
          ∙ trim_left_lf_twice clean,
    )
