-- ===== src/Prompt/Bodies.antt =====
-- A body in the prompt of the active skills: only line ends at its end are dropped.
use mathlib.Core.List.{reverse-append, reverse-reverse, reverse-cons}
use agentskills_go.Base.{
  Bytes, Bool, true, false, ◌&&◌, [], ◌∷◌, ◌++◌, ◌≡◌, ◌∙◌, refl, sym, ap, arith, Bool-cases, inl,
  inr, reverse,
}
use agentskills_go.Prompt.Texts.{is_newline, drop_newlines, trim_trailing_newlines}

abbrev pub are_newlines : Bytes → Bool
are_newlines [] = true
are_newlines (a ∷ s) = is_newline a && are_newlines s

abbrev pub starts_newline : Bytes → Bool
starts_newline [] = false
starts_newline (a ∷ s) = is_newline a

are_newlines-append : (s t : Bytes) → are_newlines (s ++ t) ≡ (are_newlines s && are_newlines t)
are_newlines-append [] t = refl
are_newlines-append (a ∷ s) t = ground (arith, are_newlines-append s t)

are_newlines-reverse : (s : Bytes) → are_newlines (reverse s) ≡ are_newlines s
are_newlines-reverse [] = refl
are_newlines-reverse (a ∷ s) =
    ap are_newlines (reverse-cons a s)
    ∙ ground (arith, are_newlines-append (reverse s) (a ∷ []), are_newlines-reverse s)

drop_newlines-split :
    (s : Bytes)
    → (pre : Bytes) × (are_newlines pre ≡ true)
      × (pre ++ drop_newlines s ≡ s)
      × (starts_newline (drop_newlines s) ≡ false)
unfolding drop_newlines
drop_newlines-split [] = ([], refl, refl, refl)
drop_newlines-split (a ∷ s) = elim (Bool-cases (is_newline a)) [
  | inl e ↦
      let (pre, all, same, out) = drop_newlines-split s in
      (a ∷ pre, ground arith, ground arith, ground arith)
  | inr e ↦ ([], refl, ground arith, ground arith)
]

-- Trimming a body drops a run of line ends at its end, and all of them: what is left does not end
-- with one.
pub trim_trailing_newlines_lem :
    (s : Bytes)
    → (tail : Bytes) × (are_newlines tail ≡ true)
      × (trim_trailing_newlines s ++ tail ≡ s)
      × (starts_newline (reverse (trim_trailing_newlines s)) ≡ false)
unfolding trim_trailing_newlines
trim_trailing_newlines_lem s =
    let (pre, all, same, out) = drop_newlines-split (reverse s) in
    let kept = drop_newlines (reverse s) in
    (
      reverse pre,
      are_newlines-reverse pre ∙ all,
      sym (reverse-append pre kept) ∙ ap reverse same ∙ reverse-reverse s,
      ap starts_newline (reverse-reverse kept) ∙ out,
    )
