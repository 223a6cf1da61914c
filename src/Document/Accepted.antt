-- ===== src/Document/Accepted.antt =====
-- What `ParseSkillDocument` accepts, `ValidateSkillDocument` accepts, but for one case.
use agentskills_go.Base.{
  ℕ, ◌≤◌, Bytes, bytes_eq, nat_eq, Bool, true, false, ◌||◌, not, List, [], ◌++◌, Option, none, some,
  codes, ◌≡◌, ◌∙◌, refl, sym, ap, subst, arith, leb, ltb, ◌==◌, length, contains,
}
use agentskills_go.Document.Bodies.{valid_utf8-normalize_body, contains-normalize_body}
use agentskills_go.Document.Checks.{
  refuse_if, is_untrimmed, validate_skill_document_name, validate_skill_document_description,
  validate_skill_document,
}
use agentskills_go.Document.Items.{parse_skill_document_arguments, parse_skill_document_tags}
use agentskills_go.Document.Kept.{or_else_none, parse_skill_document_arguments-AreChecked}
use agentskills_go.Document.Limits.{
  Flaw, Checked, good, bad, display_name_untrimmed, name_empty, name_untrimmed, max_skill_arguments,
  max_skill_tags, document_too_large, document_not_utf8, document_has_nul, name_missing,
  name_not_string, name_unexpected, description_missing, description_not_string,
  max_skill_document_bytes, max_skill_display_name_bytes,
}
use agentskills_go.Document.Lines.{
  split_skill_document_frontmatter, first_skill_document_heading, normalize_body,
}
use agentskills_go.Document.Parse.{
  ◌>>=◌, require, no_flaw, cut_bom, required_skill_document_string, read_identity, display_name_of,
  assemble, decoded, parse_skill_document,
}
use agentskills_go.Document.Shown.{
  valid_utf8-cut_bom, contains-cut_bom, display_name_of-fits, or_else_nothing,
  validate_display_name_lem, parse_skill_document_insert-supported, display_name_of-trimmed,
}
use agentskills_go.Document.Split.{
  split_skill_document_frontmatter-IsSplit, IsSplit-valid, IsSplit-contains,
}
use agentskills_go.Document.Tagged.{parse_skill_document_tags-AreChecked}
use agentskills_go.Document.Values.{field_or_nil}
use agentskills_go.Spec.{Fields, SkillDocument}
use agentskills_go.Text.{is_blank, trim_space}
use agentskills_go.Text.Utf8.{valid_utf8}

>>=-good :
    {A B : Type 0} (c : Checked A) (next : A → Checked B) (b : B)
    → (c >>= next) ≡ good b
    → (a : A) × (c ≡ good a) × (next a ≡ good b)
>>=-good (good a) next b h = (a, refl, h)
>>=-good (bad f) next b h = absurd (ground arith)

good-injective {ℓ} : {A : Type ℓ} (a b : A) → good a ≡ good b → a ≡ b
good-injective a b h = ground arith

require-good : (b : Bool) (f : Flaw) (u : Unit {0}) → require b f ≡ good u → b ≡ true
require-good b f u h = ground arith

no_flaw-good : (o : Option Flaw) (u : Unit {0}) → no_flaw o ≡ good u → o ≡ none
no_flaw-good none u h = refl
no_flaw-good (some f) u h = absurd (ground arith)

-- What the checks of the parser find of the fields that identify a document.
read_identity-checked :
    (expected : Bytes) (fs : Fields) (name description : Bytes) (w : List Bytes)
    → read_identity expected fs ≡ good ((name, description), w)
    → (validate_skill_document_name name ≡ none)
      × (validate_skill_document_description description ≡ none)
unfolding read_identity
read_identity-checked expected fs name description w h =
    let (a, _, h1) =
      >>=-good (required_skill_document_string fs (codes "name") name_missing name_not_string) _ _
        h in
    let (b, e1, h2) = >>=-good (no_flaw (validate_skill_document_name a.0)) _ _ h1 in
    let (c, _, h3) =
      >>=-good
        (required_skill_document_string fs (codes "description") description_missing
          description_not_string)
        _ _ h2 in
    let (d, e2, h4) = >>=-good (no_flaw (validate_skill_document_description c.0)) _ _ h3 in
    let (f, _, h5) =
      >>=-good (require (is_blank expected || a.0 == trim_space expected) name_unexpected) _ _ h4 in
    let same : (a.0, c.0) ≡ (name, description) = ap (λ p. p.0) (good-injective _ _ h5) in
    (
      sym (ap (λ p. validate_skill_document_name p.0) same) ∙ no_flaw-good _ b e1,
      sym (ap (λ p. validate_skill_document_description p.1) same) ∙ no_flaw-good _ d e2,
    )

-- A checked name is shorter than the limit of a display name.
validate_skill_document_name-fits :
    (name : Bytes)
    → validate_skill_document_name name ≡ none
    → length name ≤ max_skill_display_name_bytes
unfolding validate_skill_document_name
validate_skill_document_name-fits name h =
    let (_, h1) = or_else_none (refuse_if (name == []) name_empty) _ h in
    let (_, h2) = or_else_none (refuse_if (is_untrimmed name) name_untrimmed) _ h1 in ground arith

pub validate_skill_document_name-trimmed :
    (name : Bytes) → validate_skill_document_name name ≡ none → is_untrimmed name ≡ false
unfolding validate_skill_document_name
validate_skill_document_name-trimmed name h =
    let (_, h1) = or_else_none (refuse_if (name == []) name_empty) _ h in
    let (h2, _) = or_else_none (refuse_if (is_untrimmed name) name_untrimmed) _ h1 in ground arith

-- What the document of the fields has against it.
assemble-checked :
    (quote : Bytes → Bytes) (name description : Bytes) (fs : Fields) (rest : Bytes) (w : List Bytes)
    → validate_skill_document_name name ≡ none
    → validate_skill_document_description description ≡ none
    → valid_utf8 rest ≡ true
    → contains 0 rest ≡ false
    → validate_skill_document (assemble quote (name, description) fs rest w).0
      ≡ refuse_if
          (is_untrimmed (assemble quote (name, description) fs rest w).0.display_name)
          display_name_untrimmed
unfolding validate_skill_document assemble
assemble-checked quote name description fs rest w n d v z =
    let body = normalize_body rest in
    let shown = (display_name_of name body).0 in
    let arguments = parse_skill_document_arguments (field_or_nil (codes "arguments") fs) in
    let tags = parse_skill_document_tags (field_or_nil (codes "tags") fs) in
    let a = parse_skill_document_arguments-AreChecked (field_or_nil (codes "arguments") fs) in
    let t = parse_skill_document_tags-AreChecked (field_or_nil (codes "tags") fs) in
    let few : ltb max_skill_arguments (length arguments.0) ≡ false = at_most _ _ a.0 in
    let few' : ltb max_skill_tags (length tags.0) ≡ false = at_most _ _ t.0 in
    rw
      (
        n,
        d,
        validate_display_name_lem shown
            (display_name_of-fits name body (validate_skill_document_name-fits name n)),
        parse_skill_document_insert-supported quote (field_or_nil (codes "insert") fs),
        few,
        a.1,
        few',
        t.1,
        valid_utf8-normalize_body rest v,
        contains-normalize_body rest z,
      )
      (or_else_nothing (refuse_if (is_untrimmed shown) display_name_untrimmed))
  where
    at_most : (m k : ℕ) → k ≤ m → ltb m k ≡ false
    at_most m k h = ground arith

-- What a document was parsed from.
record IsParsed (quote : Bytes → Bytes) (document : SkillDocument) : Type 0 where
  name : Bytes
  description : Bytes
  properties : Fields
  rest : Bytes
  warnings : List Bytes
  assembled : (assemble quote (name, description) properties rest warnings).0 ≡ document
  named : validate_skill_document_name name ≡ none
  described : validate_skill_document_description description ≡ none
  valid : valid_utf8 rest ≡ true
  has_no_nul : contains 0 rest ≡ false

module _ (decode : Bytes → Option Fields) (quote : Bytes → Bytes) where
  parse_skill_document-IsParsed :
      (expected content : Bytes) (document : SkillDocument) (warnings : List Bytes)
      → parse_skill_document decode quote expected content ≡ good (document, warnings)
      → IsParsed quote document
  unfolding parse_skill_document
  parse_skill_document-IsParsed expected content document warnings h =
      let (a, _, h1) =
        >>=-good (require (leb (length content) max_skill_document_bytes) document_too_large) _ _
          h in
      let (b, e1, h2) = >>=-good (require (valid_utf8 content) document_not_utf8) _ _ h1 in
      let (c, e2, h3) = >>=-good (require (not (contains 0 content)) document_has_nul) _ _ h2 in
      let ((frontmatter, rest), e3, h4) =
        >>=-good (split_skill_document_frontmatter (cut_bom content).0) _ _ h3 in
      let (fs, _, h5) = >>=-good (decoded (decode frontmatter)) _ _ h4 in
      let (((name, description), w), e4, h6) = >>=-good (read_identity expected fs) _ _ h5 in
      let (n, d) = read_identity-checked expected fs name description w e4 in
      let s =
        (split_skill_document_frontmatter-IsSplit (cut_bom content).0 frontmatter rest).0 e3 in
      let v = valid_utf8-cut_bom content (require-good _ _ b e1) in
      let z = contains-cut_bom content (not_true (require-good _ _ c e2)) in
      record {
        name = name;
        description = description;
        properties = fs;
        rest = rest;
        warnings = (cut_bom content).1 ++ w;
        assembled = ap (λ p. p.0) (good-injective _ _ h6);
        named = n;
        described = d;
        valid = IsSplit-valid (cut_bom content).0 frontmatter rest s v;
        has_no_nul = IsSplit-contains 0 (cut_bom content).0 frontmatter rest s z;
      }
    where
      not_true : {b : Bool} → not b ≡ true → b ≡ false
      not_true {b} h = ground arith

  -- A parsed document passes the checks of `ValidateSkillDocument`, whatever the decoder returns, except
  -- that its display name may have white space around it, and then that is the flaw found.
  pub parse_skill_document-validate_skill_document :
      (expected content : Bytes) (document : SkillDocument) (warnings : List Bytes)
      → parse_skill_document decode quote expected content ≡ good (document, warnings)
      → validate_skill_document document
        ≡ refuse_if (is_untrimmed document.display_name) display_name_untrimmed
  parse_skill_document-validate_skill_document expected content document warnings h =
      let p = parse_skill_document-IsParsed expected content document warnings h in
      sym (ap validate_skill_document p.assembled)
      ∙ assemble-checked quote p.name p.description p.properties p.rest p.warnings p.named
          p.described p.valid p.has_no_nul
      ∙ ap (λ d. refuse_if (is_untrimmed d.display_name) display_name_untrimmed) p.assembled

  -- A parsed document whose first heading has at most 256 bytes passes all the checks.
  pub parse_skill_document-accepted :
      (expected content : Bytes) (document : SkillDocument) (warnings : List Bytes)
      → parse_skill_document decode quote expected content ≡ good (document, warnings)
      → length (first_skill_document_heading document.markdown_body) ≤ max_skill_display_name_bytes
      → validate_skill_document document ≡ none
  unfolding assemble
  parse_skill_document-accepted expected content document warnings h l =
      let p = parse_skill_document-IsParsed expected content document warnings h in
      let body = normalize_body p.rest in
      let e : document.markdown_body ≡ body = sym (ap (λ d. d.markdown_body) p.assembled) in
      let l' : length (first_skill_document_heading body) ≤ max_skill_display_name_bytes =
        subst (λ b. length (first_skill_document_heading b) ≤ max_skill_display_name_bytes) e l in
      let t : is_untrimmed document.display_name ≡ false =
        sym (ap (λ d. is_untrimmed d.display_name) p.assembled)
        ∙ display_name_of-trimmed p.name body (validate_skill_document_name-trimmed p.name p.named)
            (validate_skill_document_name-fits p.name p.named) l' in
      parse_skill_document-validate_skill_document expected content document warnings h
      ∙ ap (λ b. refuse_if b display_name_untrimmed) t
