-- ===== src/Document/Ends.antt =====
-- The lines of a text: what they make up together, and what follows one of them.
use agentskills_go.Base.{
  ℕ, Bytes, nat_eq, Bool, true, ◌&&◌, List, [], ◌∷◌, ◌++◌, ◌≡◌, ◌∙◌, refl, sym, ap, arith, inl, inr,
  Bool-cases, nat_beq, append_assoc,
}
use agentskills_go.Document.Lines.{onto_first, raw_lines, unread}
use agentskills_go.Document.Write.{ends_with_lf}
use agentskills_go.Text.Runes.{valid_utf8-after}
use agentskills_go.Text.Utf8.{valid_from, valid_utf8}

pub unread-onto_first : (a : ℕ) (ls : List Bytes) → unread (onto_first a ls) ≡ a ∷ unread ls
unread-onto_first a [] = refl
unread-onto_first a (l ∷ ls) = refl

pub unread-raw_lines : (s : Bytes) → unread (raw_lines s) ≡ s
unfolding raw_lines
unread-raw_lines [] = refl
unread-raw_lines (a ∷ s) = elim (Bool-cases (nat_beq a 10)) [
  | inl e ↦ rw e (ap (◌∷◌ a) (unread-raw_lines s))
  | inr e ↦ rw e (unread-onto_first a (raw_lines s) ∙ ap (◌∷◌ a) (unread-raw_lines s))
]

pub unread-append : (ls ms : List Bytes) → unread (ls ++ ms) ≡ unread ls ++ unread ms
unread-append [] ms = refl
unread-append (l ∷ ls) ms =
    ap (◌++◌ l) (unread-append ls ms) ∙ sym (append_assoc l (unread ls) (unread ms))

-- every line but the last ends in a line end
abbrev pub ended : List Bytes → Bool
ended [] = true
ended (l ∷ []) = true
ended (l ∷ m ∷ ls) = ends_with_lf l && ended (m ∷ ls)

ended-onto_first : (a : ℕ) (ls : List Bytes) → ended ls ≡ true → ended (onto_first a ls) ≡ true
ended-onto_first a [] h = refl
ended-onto_first a (l ∷ []) h = refl
ended-onto_first a ([] ∷ m ∷ ls) h = absurd (ground arith)
ended-onto_first a ((b ∷ l) ∷ m ∷ ls) h = h

pub ended-raw_lines : (s : Bytes) → ended (raw_lines s) ≡ true
unfolding raw_lines
ended-raw_lines [] = refl
ended-raw_lines (a ∷ s) = elim (Bool-cases (nat_beq a 10)) [
  | inl e ↦ rw e (ended-cons a (raw_lines s) e (ended-raw_lines s))
  | inr e ↦ rw e (ended-onto_first a (raw_lines s) (ended-raw_lines s))
]
  where
    ended-cons :
        (a : ℕ) (ls : List Bytes)
        → nat_beq a 10 ≡ true
        → ended ls ≡ true
        → ended ((a ∷ []) ∷ ls) ≡ true
    ended-cons a [] e h = refl
    ended-cons a (l ∷ ls) e h = rw e h

ended-suffix : (ls ms : List Bytes) → ended (ls ++ ms) ≡ true → ended ms ≡ true
ended-suffix [] ms h = h
ended-suffix (l ∷ []) [] h = refl
ended-suffix (l ∷ []) (m ∷ ms) h = ground arith
ended-suffix (l ∷ l' ∷ ls) ms h = ended-suffix (l' ∷ ls) ms (ground arith)

ends_with_lf-split : (l : Bytes) → ends_with_lf l ≡ true → (pre : Bytes) × (l ≡ pre ++ (10 ∷ []))
ends_with_lf-split [] h = absurd (ground arith)
ends_with_lf-split (a ∷ []) h = ([], ap (λ b. b ∷ []) (ground arith))
ends_with_lf-split (a ∷ b ∷ l) h =
    let (pre, e) = ends_with_lf-split (b ∷ l) h in (a ∷ pre, ap (◌∷◌ a) e)

valid_utf8-after_line :
    (l : Bytes) (ms : List Bytes)
    → ends_with_lf l ≡ true
    → valid_utf8 (l ++ unread ms) ≡ true
    → valid_utf8 (unread ms) ≡ true
valid_utf8-after_line l ms h v =
    let (pre, e) = ends_with_lf-split l h in
    let same = ap (λ x. x ++ unread ms) e ∙ append_assoc pre (10 ∷ []) (unread ms) in
    valid_utf8-after pre (unread ms) (sym (ap valid_utf8 same) ∙ v)

-- The lines after some lines of a valid text are valid.
pub valid_utf8-after_lines :
    (ls ms : List Bytes)
    → ended (ls ++ ms) ≡ true
    → valid_utf8 (unread (ls ++ ms)) ≡ true
    → valid_utf8 (unread ms) ≡ true
valid_utf8-after_lines [] ms h v = v
valid_utf8-after_lines (l ∷ []) [] h v = unfold valid_utf8 valid_from in refl
valid_utf8-after_lines (l ∷ []) (m ∷ ms) h v = valid_utf8-after_line l (m ∷ ms) (ground arith) v
valid_utf8-after_lines (l ∷ l' ∷ ls) ms h v =
    valid_utf8-after_lines (l' ∷ ls) ms (ground arith)
      (valid_utf8-after_line l (l' ∷ (ls ++ ms)) (ground arith) v)
