-- ===== src/Document/Split.antt =====
-- `splitSkillDocumentFrontmatter`: where the frontmatter ends.
use agentskills_go.Base.{
  ℕ, Bytes, nat_eq, true, false, List, [], ◌∷◌, ◌++◌, ◌≡◌, ◌∙◌, refl, sym, ap, arith, inl, inr,
  Bool-cases, append_assoc, append-nil, keep, ◌↔◌, contains, contains-append,
}
use agentskills_go.Document.Limits.{good}
use agentskills_go.Document.Lines.{
  raw_lines, unread, opens_frontmatter, closes_frontmatter, collect_frontmatter,
  split_lines_frontmatter, split_skill_document_frontmatter,
}
use agentskills_go.Document.Ends.{
  unread-raw_lines, unread-append, ended, ended-raw_lines, valid_utf8-after_lines,
}
use agentskills_go.Text.Utf8.{valid_utf8}

-- How a content divides: a line that opens the frontmatter, the frontmatter, of whose lines none closes
-- it, a line that does, and the body.
pub record IsSplit (content frontmatter body : Bytes) : Type 0 where
  pub first : Bytes
  pub close : Bytes
  pub inner : List Bytes
  pub after : List Bytes
  pub lines : raw_lines content ≡ first ∷ (inner ++ (close ∷ after))
  pub opens : opens_frontmatter first ≡ true
  pub closes : closes_frontmatter close ≡ true
  pub stays : keep closes_frontmatter inner ≡ []
  pub inside : unread inner ≡ frontmatter
  pub rest : unread after ≡ body

-- What the loop has found, behind what it had collected before.
record IsCollected (before : Bytes) (ls : List Bytes) (frontmatter body : Bytes) : Type 0 where
  close : Bytes
  inner : List Bytes
  after : List Bytes
  lines : ls ≡ inner ++ (close ∷ after)
  closes : closes_frontmatter close ≡ true
  stays : keep closes_frontmatter inner ≡ []
  inside : before ++ unread inner ≡ frontmatter
  rest : unread after ≡ body

cons-IsCollected :
    (before line : Bytes) (ls : List Bytes) (frontmatter body : Bytes)
    → closes_frontmatter line ≡ false
    → IsCollected (before ++ line) ls frontmatter body
    → IsCollected before (line ∷ ls) frontmatter body
cons-IsCollected before line ls frontmatter body h c = record {
  close = c.close;
  inner = line ∷ c.inner;
  after = c.after;
  lines = ap (◌∷◌ line) c.lines;
  closes = c.closes;
  stays = rw h c.stays;
  inside = sym (append_assoc before line (unread c.inner)) ∙ c.inside;
  rest = c.rest;
}

collect_frontmatter-found :
    (before : Bytes) (ls : List Bytes) (frontmatter body : Bytes)
    → collect_frontmatter before ls ≡ good (frontmatter, body)
    → IsCollected before ls frontmatter body
unfolding collect_frontmatter
collect_frontmatter-found before [] frontmatter body h = absurd (ground arith)
collect_frontmatter-found before (line ∷ ls) frontmatter body h =
    elim (Bool-cases (closes_frontmatter line)) [
      | inl e ↦ record {
        close = line;
        inner = [];
        after = ls;
        lines = refl;
        closes = e;
        stays = refl;
        inside = append-nil before ∙ ground arith;
        rest = ground arith;
      }
      | inr e ↦
          cons-IsCollected before line ls frontmatter body e
            (collect_frontmatter-found (before ++ line) ls frontmatter body (ground arith))
    ]

collect_frontmatter_lem :
    (before : Bytes) (inner : List Bytes) (close : Bytes) (after : List Bytes)
    → keep closes_frontmatter inner ≡ []
    → closes_frontmatter close ≡ true
    → collect_frontmatter before (inner ++ (close ∷ after))
      ≡ good (before ++ unread inner, unread after)
unfolding collect_frontmatter
collect_frontmatter_lem before [] close after s c = rw (c, append-nil before) refl
collect_frontmatter_lem before (line ∷ inner) close after s c =
    elim (Bool-cases (closes_frontmatter line)) [
      | inl e ↦ absurd (ground arith)
      | inr e ↦
          rw (e, sym (append_assoc before line (unread inner)))
            (collect_frontmatter_lem (before ++ line) inner close after (ground arith) c)
    ]

split_lines_frontmatter-found :
    (content : Bytes) (ls : List Bytes) (frontmatter body : Bytes)
    → raw_lines content ≡ ls
    → split_lines_frontmatter ls ≡ good (frontmatter, body)
    → IsSplit content frontmatter body
unfolding split_lines_frontmatter
split_lines_frontmatter-found content [] frontmatter body e h = absurd (ground arith)
split_lines_frontmatter-found content (first ∷ ls) frontmatter body e h =
    let o : opens_frontmatter first ≡ true = ground arith in
    let c = collect_frontmatter-found [] ls frontmatter body (ground arith) in
    record {
      first = first;
      close = c.close;
      inner = c.inner;
      after = c.after;
      lines = e ∙ ap (◌∷◌ first) c.lines;
      opens = o;
      closes = c.closes;
      stays = c.stays;
      inside = c.inside;
      rest = c.rest;
    }

-- A content is split into a frontmatter and a body exactly when its first line opens a frontmatter, the
-- frontmatter is what stands up to the first later line that closes it, and the body is what follows
-- that line.
pub split_skill_document_frontmatter-IsSplit :
    (content frontmatter body : Bytes)
    → (split_skill_document_frontmatter content ≡ good (frontmatter, body))
      ↔ IsSplit content frontmatter body
unfolding split_skill_document_frontmatter
split_skill_document_frontmatter-IsSplit content frontmatter body = (
  split_lines_frontmatter-found content (raw_lines content) frontmatter body refl,
  λ s.
      ap split_lines_frontmatter s.lines
      ∙ opened s.first (s.inner ++ (s.close ∷ s.after)) s.opens
      ∙ collect_frontmatter_lem [] s.inner s.close s.after s.stays s.closes
      ∙ ap (λ f. good (f, unread s.after)) s.inside
      ∙ ap (λ b. good (frontmatter, b)) s.rest,
)
  where
    opened :
        (first : Bytes) (ls : List Bytes)
        → opens_frontmatter first ≡ true
        → split_lines_frontmatter (first ∷ ls) ≡ collect_frontmatter [] ls
    opened first ls o = unfold split_lines_frontmatter in rw o refl

-- The pieces of a content, in order.
pub IsSplit-pieces :
    (content frontmatter body : Bytes) (s : IsSplit content frontmatter body)
    → content ≡ s.first ++ (frontmatter ++ (s.close ++ body))
IsSplit-pieces content frontmatter body s =
    sym (unread-raw_lines content)
    ∙ ap unread s.lines
    ∙ ap (λ x. s.first ++ x)
        (unread-append s.inner (s.close ∷ s.after)
          ∙ ap (λ x. x ++ (s.close ++ unread s.after)) s.inside
          ∙ ap (λ x. frontmatter ++ (s.close ++ x)) s.rest)

-- The body of a valid content is valid.
pub IsSplit-valid :
    (content frontmatter body : Bytes)
    → IsSplit content frontmatter body
    → valid_utf8 content ≡ true
    → valid_utf8 body ≡ true
IsSplit-valid content frontmatter body s v =
    let front = s.first ∷ (s.inner ++ (s.close ∷ [])) in
    let e : raw_lines content ≡ front ++ s.after =
      s.lines ∙ ap (◌∷◌ s.first) (sym (append_assoc s.inner (s.close ∷ []) s.after)) in
    sym (ap valid_utf8 s.rest)
    ∙ valid_utf8-after_lines front s.after (sym (ap ended e) ∙ ended-raw_lines content)
        (sym (ap valid_utf8 (ap unread e)) ∙ ap valid_utf8 (unread-raw_lines content) ∙ v)

-- A byte that the content does not have, the body does not have.
pub IsSplit-contains :
    (b : ℕ) (content frontmatter body : Bytes)
    → IsSplit content frontmatter body
    → contains b content ≡ false
    → contains b body ≡ false
IsSplit-contains b content frontmatter body s h =
    let e = sym (ap (contains b) (IsSplit-pieces content frontmatter body s)) ∙ h in
    ground (
      arith,
      e,
      contains-append b s.first (frontmatter ++ (s.close ++ body)),
      contains-append b frontmatter (s.close ++ body),
      contains-append b s.close body,
    )
