-- ===== src/Text/Trim.antt =====
-- `strings.TrimSpace` leaves a text that it does not change again.
use mathlib.Core.List.{reverse-append, reverse-reverse}
use agentskills_go.Base.{
  ℕ, zero, suc, Bytes, [], ◌∷◌, ◌++◌, ◌≡◌, ◌∙◌, refl, sym, ap, arith, reverse, ◌⊎◌, inl, inr,
}
use agentskills_go.Text.{
  space_width, last_space_width, strip, trim_left_space, trim_right_space, trim_space,
}

zero_or_suc : (n : ℕ) → (n ≡ 0) ⊎ ((k : ℕ) × (n ≡ suc k))
zero_or_suc zero = inl refl
zero_or_suc (suc k) = inr (k, refl)

-- What is left after stripping has no space in front.
strip-width : (width : Bytes → ℕ) (k : ℕ) (s : Bytes) → width [] ≡ 0 → width (strip width k s) ≡ 0
unfolding strip
strip-width width k [] e = e
strip-width width (suc k) (a ∷ s) e = strip-width width k s e
strip-width width zero (a ∷ s) e = elim (zero_or_suc (width (a ∷ s))) [
  | inl h ↦ rw (h, strip) h
  | inr (k, h) ↦ rw (h, strip) (strip-width width k s e)
]

pub strip_none : (width : Bytes → ℕ) (s : Bytes) → width s ≡ 0 → strip width 0 s ≡ s
unfolding strip
strip_none width [] h = refl
strip_none width (a ∷ s) h = rw (h, strip) refl

-- What is stripped stood in front.
strip-suffix :
    (width : Bytes → ℕ) (k : ℕ) (s : Bytes) → (pre : Bytes) × (pre ++ strip width k s ≡ s)
unfolding strip
strip-suffix width k [] = ([], refl)
strip-suffix width (suc k) (a ∷ s) =
    let (pre, e) = strip-suffix width k s in (a ∷ pre, ap (◌∷◌ a) e)
strip-suffix width zero (a ∷ s) = elim (zero_or_suc (width (a ∷ s))) [
  | inl h ↦ ([], rw (h, strip) refl)
  | inr (k, h) ↦ let (pre, e) = strip-suffix width k s in (a ∷ pre, rw (h, strip) (ap (◌∷◌ a) e))
]

-- A text with no space in front keeps that when its end is cut.
space_width-append : (s t : Bytes) → space_width (s ++ t) ≡ 0 → space_width s ≡ 0
unfolding space_width
space_width-append [] t h = refl
space_width-append (a ∷ []) [] h = h
space_width-append (a ∷ []) (b ∷ []) h = ground arith
space_width-append (a ∷ []) (b ∷ c ∷ t) h = ground arith
space_width-append (a ∷ b ∷ []) [] h = h
space_width-append (a ∷ b ∷ []) (c ∷ t) h = ground arith
space_width-append (a ∷ b ∷ c ∷ s) t h = h

trim_right_space-split : (s : Bytes) → (tail : Bytes) × (trim_right_space s ++ tail ≡ s)
unfolding trim_right_space
trim_right_space-split s =
    let (pre, e) = strip-suffix last_space_width 0 (reverse s) in
    (
      reverse pre,
      sym (reverse-append pre (strip last_space_width 0 (reverse s)))
          ∙ ap reverse e
          ∙ reverse-reverse s,
    )

trim_right_space_twice : (s : Bytes) → trim_right_space (trim_right_space s) ≡ trim_right_space s
unfolding trim_right_space
trim_right_space_twice s =
    let kept = strip last_space_width 0 (reverse s) in
    ap reverse (
      ap (strip last_space_width 0) (reverse-reverse kept)
      ∙ strip_none last_space_width kept (strip-width last_space_width 0 (reverse s) empty))
  where
    empty : last_space_width [] ≡ 0
    empty = unfold last_space_width in refl

pub trim_space_twice : (s : Bytes) → trim_space (trim_space s) ≡ trim_space s
unfolding trim_space trim_left_space
trim_space_twice s =
    let left = strip space_width 0 s in
    let (tail, e) = trim_right_space-split left in
    let front : space_width (trim_right_space left) ≡ 0 =
      space_width-append (trim_right_space left) tail
        (ap space_width e ∙ strip-width space_width 0 s (unfold space_width in refl)) in
    ap trim_right_space (strip_none space_width (trim_right_space left) front)
    ∙ trim_right_space_twice left
