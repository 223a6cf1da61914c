-- ===== src/Document/Written.antt =====
-- What `MarshalSkillDocument` writes is split again where it was put together.
use agentskills_go.Base.{
  ℕ, Bytes, bytes_eq, nat_eq, true, false, ◌||◌, List, [], ◌∷◌, ◌++◌, ◌≡◌, ◌∙◌, refl, sym, ap,
  arith, codes, inl, inr, Bool-cases, nat_beq, if◌then◌else◌, append-nil, keep, length, ◌≤◌,
  contains, contains-append, ◌==◌,
}
use agentskills_go.Catalog.Filters.{is_nil}
use agentskills_go.Document.Bodies.{replace_crlf_lf_none, replace_cr_lf_none, normalize_body-twice}
use agentskills_go.Document.Ends.{unread-onto_first, unread-raw_lines}
use agentskills_go.Document.Limits.{good}
use agentskills_go.Document.Lines.{
  onto_first, raw_lines, unread, opens_frontmatter, closes_frontmatter,
  split_skill_document_frontmatter, replace_cr_lf, trim_left_lf, normalize_body,
}
use agentskills_go.Document.Split.{split_skill_document_frontmatter-IsSplit}
use agentskills_go.Document.Write.{ends_with_lf, written_body, document_text}
use agentskills_go.Prompt.Texts.{trim_trailing_newlines, drop_newlines}
use agentskills_go.Text.{
  trim_space, trim_left_space, trim_right_space, strip, space_width, last_space_width,
}

-- the lines of a text that a line end follows
abbrev pub full_lines : Bytes → List Bytes
full_lines [] = (10 ∷ []) ∷ []
full_lines (a ∷ s) =
    let rest = full_lines s in if nat_beq a 10 then (a ∷ []) ∷ rest else onto_first a rest

onto_first-append :
    (a : ℕ) (ls ms : List Bytes)
    → is_nil ls ≡ false
    → onto_first a (ls ++ ms) ≡ onto_first a ls ++ ms
onto_first-append a [] ms h = absurd (ground arith)
onto_first-append a (l ∷ ls) ms h = refl

full_lines-shown : (s : Bytes) → is_nil (full_lines s) ≡ false
full_lines-shown [] = refl
full_lines-shown (a ∷ s) = elim (Bool-cases (nat_beq a 10)) [
  | inl e ↦ rw e refl
  | inr e ↦ rw e (onto_first-shown a (full_lines s))
]
  where
    onto_first-shown : (a : ℕ) (ls : List Bytes) → is_nil (onto_first a ls) ≡ false
    onto_first-shown a [] = refl
    onto_first-shown a (l ∷ ls) = refl

raw_lines-append : (s t : Bytes) → raw_lines (s ++ (10 ∷ t)) ≡ full_lines s ++ raw_lines t
unfolding raw_lines
raw_lines-append [] t = refl
raw_lines-append (a ∷ s) t = elim (Bool-cases (nat_beq a 10)) [
  | inl e ↦ rw e (ap (◌∷◌ (a ∷ [])) (raw_lines-append s t))
  | inr e ↦ rw e (
      ap (onto_first a) (raw_lines-append s t)
      ∙ onto_first-append a (full_lines s) (raw_lines t) (full_lines-shown s))
]

unread-full_lines : (s : Bytes) → unread (full_lines s) ≡ s ++ (10 ∷ [])
unread-full_lines [] = refl
unread-full_lines (a ∷ s) = elim (Bool-cases (nat_beq a 10)) [
  | inl e ↦ rw e (ap (◌∷◌ a) (unread-full_lines s))
  | inr e ↦ rw e (unread-onto_first a (full_lines s) ∙ ap (◌∷◌ a) (unread-full_lines s))
]

marker_opens : opens_frontmatter (codes "---\n") ≡ true
unfolding opens_frontmatter trim_trailing_newlines drop_newlines trim_space trim_left_space
    trim_right_space strip space_width last_space_width
marker_opens = refl

marker_closes : closes_frontmatter (codes "---\n") ≡ true
unfolding closes_frontmatter trim_trailing_newlines drop_newlines trim_space trim_left_space
    trim_right_space strip space_width last_space_width
marker_closes = refl

normalize_body-clean : (s : Bytes) → contains 13 s ≡ false → normalize_body s ≡ trim_left_lf s
unfolding normalize_body
normalize_body-clean s h =
    ap (λ x. trim_left_lf (replace_cr_lf x)) (replace_crlf_lf_none s h)
    ∙ ap trim_left_lf (replace_cr_lf_none s h)

length-trim_left_lf-le : (s : Bytes) → length (trim_left_lf s) ≤ length s
unfolding trim_left_lf
length-trim_left_lf-le [] = omega arith
length-trim_left_lf-le (a ∷ s) = ground (arith, length-trim_left_lf-le s)

-- A text with no line end in front keeps that when something is added to it.
trim_left_lf-append :
    (a : ℕ) (s t : Bytes)
    → trim_left_lf (a ∷ s) ≡ a ∷ s
    → trim_left_lf (10 ∷ (a ∷ (s ++ t))) ≡ a ∷ (s ++ t)
unfolding trim_left_lf
trim_left_lf-append a s t h = elim (Bool-cases (nat_beq a 10)) [
  | inl e ↦
      let same : trim_left_lf s ≡ a ∷ s = ground arith in
      absurd (omega (arith, length-trim_left_lf-le s, ap length same))
  | inr e ↦ rw e refl
]

-- the body with a line end at its end, unless it is empty
abbrev pub with_line_end : Bytes → Bytes
with_line_end body = if body == [] || ends_with_lf body then body else body ++ (10 ∷ [])

normalize_body-added :
    (a : ℕ) (s tail : Bytes)
    → normalize_body (a ∷ s) ≡ a ∷ s
    → contains 13 tail ≡ false
    → normalize_body (10 ∷ (a ∷ (s ++ tail))) ≡ a ∷ (s ++ tail)
normalize_body-added a s tail h d =
    let c : contains 13 (a ∷ s) ≡ false =
      sym (ap (contains 13) h) ∙ (normalize_body-twice (a ∷ s)).0 in
    let t : trim_left_lf (a ∷ s) ≡ a ∷ s = sym (normalize_body-clean (a ∷ s) c) ∙ h in
    normalize_body-clean (10 ∷ (a ∷ (s ++ tail))) (ground (arith, c, d, contains-append 13 s tail))
    ∙ trim_left_lf-append a s tail t

normalize_body-written_body :
    (body : Bytes)
    → normalize_body body ≡ body
    → normalize_body (written_body body) ≡ with_line_end body
unfolding written_body
normalize_body-written_body [] h = h
normalize_body-written_body (a ∷ s) h = elim (Bool-cases (ends_with_lf (a ∷ s))) [
  | inl e ↦ rw e (normalize_body-added a s [] h refl ∙ ap (◌∷◌ a) (append-nil s))
  | inr e ↦ rw e (normalize_body-added a s (10 ∷ []) h refl)
]

split-document_text :
    (frontmatter body : Bytes)
    → keep closes_frontmatter (full_lines (trim_space frontmatter)) ≡ []
    → split_skill_document_frontmatter (document_text frontmatter body)
      ≡ good (trim_space frontmatter ++ (10 ∷ []), written_body body)
unfolding document_text
split-document_text frontmatter body h =
    let text = trim_space frontmatter in
    (split_skill_document_frontmatter-IsSplit (document_text frontmatter body) (text ++ (10 ∷ []))
        (written_body body)).1
      (record {
        first = codes "---\n";
        close = codes "---\n";
        inner = full_lines text;
        after = raw_lines (written_body body);
        lines =
            raw_lines-append (codes "---") (text ++ (codes "\n---\n" ++ written_body body))
            ∙ ap (◌∷◌ (codes "---\n")) (
                raw_lines-append text (codes "---\n" ++ written_body body)
                ∙ ap (◌++◌ (full_lines text)) (raw_lines-append (codes "---") (written_body body)));
        opens = marker_opens;
        closes = marker_closes;
        stays = h;
        inside = unread-full_lines text;
        rest = unread-raw_lines (written_body body);
      })

-- The text that `MarshalSkillDocument` puts together of an encoded frontmatter and a normalised body is
-- split again into the trimmed frontmatter with a line end and a text whose normal form is the body,
-- with a line end at its end unless it is empty, if no line of the frontmatter reads as a marker.
pub split-document_text-back :
    (frontmatter body : Bytes)
    → keep closes_frontmatter (full_lines (trim_space frontmatter)) ≡ []
    → normalize_body body ≡ body
    → (rest : Bytes) × (split_skill_document_frontmatter (document_text frontmatter body)
        ≡ good (trim_space frontmatter ++ (10 ∷ []), rest))
      × (normalize_body rest ≡ with_line_end body)
split-document_text-back frontmatter body h n =
    (written_body body, split-document_text frontmatter body h, normalize_body-written_body body n)
