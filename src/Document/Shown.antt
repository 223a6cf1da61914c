-- ===== src/Document/Shown.antt =====
-- The byte order mark, the display name and the insert of a parsed document.
use agentskills_go.Base.{
  ℕ, ◌≤◌, Bytes, bytes_eq, nat_eq, true, false, ◌&&◌, List, [], ◌∷◌, Option, none, some, ◌≡◌, ◌∙◌,
  refl, sym, ap, arith, inl, inr, Bool-cases, ltb, nat_beq, if◌then◌else◌, ◌==◌, length, contains,
}
use agentskills_go.Artifact.Insert.{normalize_skill_insert}
use agentskills_go.Document.Checks.{◌or_else◌, refuse_if, is_untrimmed, validate_display_name}
use agentskills_go.Document.Items.{parse_skill_document_insert}
use agentskills_go.Document.Kept.{is_untrimmed-trim_space}
use agentskills_go.Document.Limits.{Flaw, display_name_untrimmed, max_skill_display_name_bytes}
use agentskills_go.Document.Lines.{
  first_heading_of, first_skill_document_heading, cut_heading, split_lines,
}
use agentskills_go.Document.Parse.{cut_bom, display_name_of}
use agentskills_go.Document.Truncate.{truncate_valid_utf8-longest}
use agentskills_go.Spec.{Value}
use agentskills_go.Artifact.Inserts.{normalize-instructions, normalize_skill_insert-twice}
use agentskills_go.Text.{trim_space, trim_left_space, trim_right_space, strip}
use agentskills_go.Text.Utf8.{rune_width, valid_from, valid_utf8}

valid_utf8-bom :
    (a b c : ℕ) (s : Bytes)
    → (nat_beq a 0xEF && nat_beq b 0xBB && nat_beq c 0xBF) ≡ true
    → valid_utf8 (a ∷ b ∷ c ∷ s) ≡ valid_utf8 s
valid_utf8-bom a b c s h =
    let a' : a ≡ 0xEF = ground arith in
    let b' : b ≡ 0xBB = ground arith in let c' : c ≡ 0xBF = ground arith in rw (a', b', c') (mark s)
  where
    mark : (s : Bytes) → valid_utf8 (0xEF ∷ 0xBB ∷ 0xBF ∷ s) ≡ valid_utf8 s
    mark s = unfold valid_utf8 valid_from rune_width in refl

-- The byte order mark goes, and the rest is as valid as before.
pub valid_utf8-cut_bom : (s : Bytes) → valid_utf8 s ≡ true → valid_utf8 (cut_bom s).0 ≡ true
unfolding cut_bom
valid_utf8-cut_bom [] v = v
valid_utf8-cut_bom (a ∷ []) v = v
valid_utf8-cut_bom (a ∷ b ∷ []) v = v
valid_utf8-cut_bom (a ∷ b ∷ c ∷ s) v =
    elim (Bool-cases (nat_beq a 0xEF && nat_beq b 0xBB && nat_beq c 0xBF)) [
      | inl e ↦ rw e (sym (valid_utf8-bom a b c s e) ∙ v)
      | inr e ↦ rw e v
    ]

pub contains-cut_bom : (s : Bytes) → contains 0 s ≡ false → contains 0 (cut_bom s).0 ≡ false
unfolding cut_bom
contains-cut_bom [] h = h
contains-cut_bom (a ∷ []) h = h
contains-cut_bom (a ∷ b ∷ []) h = h
contains-cut_bom (a ∷ b ∷ c ∷ s) h =
    elim (Bool-cases (nat_beq a 0xEF && nat_beq b 0xBB && nat_beq c 0xBF)) [
      | inl e ↦ rw e (ground arith)
      | inr e ↦ rw e h
    ]

pub display_name_of-fits :
    (name body : Bytes)
    → length name ≤ max_skill_display_name_bytes
    → length (display_name_of name body).0 ≤ max_skill_display_name_bytes
unfolding display_name_of
display_name_of-fits name body h =
    let heading = first_skill_document_heading body in
    let shown = if heading == [] then name else heading in
    elim (Bool-cases (ltb max_skill_display_name_bytes (length shown))) [
      | inl e ↦
          rw e
            (truncate_valid_utf8-longest shown max_skill_display_name_bytes (ground arith)
              (λ l. absurd (ground arith))).fits
      | inr e ↦ rw e (ground arith)
    ]

pub or_else_nothing : (o : Option Flaw) → (o or_else none) ≡ o
or_else_nothing none = refl
or_else_nothing (some f) = refl

is_untrimmed-empty : is_untrimmed [] ≡ false
is_untrimmed-empty = unfold trim_space trim_left_space trim_right_space strip in refl

-- The check of a display name that fits.
pub validate_display_name_lem :
    (name : Bytes)
    → length name ≤ max_skill_display_name_bytes
    → validate_display_name name ≡ refuse_if (is_untrimmed name) display_name_untrimmed
unfolding validate_display_name
validate_display_name_lem [] h = rw is_untrimmed-empty refl
validate_display_name_lem (a ∷ s) h =
    let fits : ltb max_skill_display_name_bytes (length (a ∷ s)) ≡ false = ground arith in
    rw fits (or_else_nothing (refuse_if (is_untrimmed (a ∷ s)) display_name_untrimmed))

pub parse_skill_document_insert-supported :
    (quote : Bytes → Bytes) (v : Value)
    → (normalize_skill_insert (parse_skill_document_insert quote v).0).1 ≡ true
unfolding parse_skill_document_insert
parse_skill_document_insert-supported quote Value.null = ap (λ p. p.1) normalize-instructions
parse_skill_document_insert-supported quote (Value.text value) =
    elim (Bool-cases (normalize_skill_insert value).1) [
      | inl e ↦ rw e (ap (λ p. p.1) (normalize_skill_insert-twice value).0)
      | inr e ↦ rw e (ap (λ p. p.1) normalize-instructions)
    ]
parse_skill_document_insert-supported quote (Value.scalar t) = ap (λ p. p.1) normalize-instructions
parse_skill_document_insert-supported quote (Value.items t) = ap (λ p. p.1) normalize-instructions
parse_skill_document_insert-supported quote (Value.texts t) = ap (λ p. p.1) normalize-instructions
parse_skill_document_insert-supported quote (Value.objects t) = ap (λ p. p.1) normalize-instructions
parse_skill_document_insert-supported quote (Value.object t) = ap (λ p. p.1) normalize-instructions
parse_skill_document_insert-supported quote (Value.mapping t) = ap (λ p. p.1) normalize-instructions

-- The heading has no white space around it.
heading_or_later :
    (found : Option Bytes) (later : Bytes)
    → is_untrimmed later ≡ false
    → is_untrimmed (elim found [ none ↦ later | some value ↦ trim_space value ]) ≡ false
heading_or_later none later h = h
heading_or_later (some value) later h = is_untrimmed-trim_space value

first_heading_of-trimmed : (ls : List Bytes) → is_untrimmed (first_heading_of ls) ≡ false
unfolding first_heading_of
first_heading_of-trimmed [] = is_untrimmed-empty
first_heading_of-trimmed (l ∷ ls) =
    heading_or_later (cut_heading (trim_space l)) (first_heading_of ls)
      (first_heading_of-trimmed ls)

-- A heading that fits is shown without white space around it.
pub display_name_of-trimmed :
    (name body : Bytes)
    → is_untrimmed name ≡ false
    → length name ≤ max_skill_display_name_bytes
    → length (first_skill_document_heading body) ≤ max_skill_display_name_bytes
    → is_untrimmed (display_name_of name body).0 ≡ false
unfolding display_name_of
display_name_of-trimmed name body u n h =
    let heading = first_skill_document_heading body in
    elim (Bool-cases (heading == [])) [
      | inl e ↦ rw (e, short n) u
      | inr e ↦
          rw (e, short h)
            (unfold first_skill_document_heading in first_heading_of-trimmed (split_lines body))
    ]
  where
    short : {n m : ℕ} → n ≤ m → ltb m n ≡ false
    short h = ground arith
