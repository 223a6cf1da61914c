-- ===== src/Document/Tagged.antt =====
-- The tags that a parsed document keeps pass the checks of `ValidateSkillDocument`.
use agentskills_go.Base.{
  ℕ, ◌+◌, ◌≤◌, ◌<◌, Bytes, bytes_eq, false, List, [], ◌∷◌, ◌++◌, none, ◌≡◌, refl, arith, inl, inr,
  Bool-cases, leb, ltb, ◌==◌, length, length-append, contains,
}
use agentskills_go.Document.Checks.{is_untrimmed, validate_tag, validate_tags}
use agentskills_go.Document.Items.{accept_tag, tags_loop, parse_skill_document_tags}
use agentskills_go.Document.Kept.{is_untrimmed-trim_space, or_else_none}
use agentskills_go.Document.Limits.{max_skill_tags, max_skill_tag_bytes}
use agentskills_go.Document.Values.{text_list, value_list}
use agentskills_go.Spec.{Value}
use agentskills_go.Text.{trim_space}

validate_tag-none :
    (seen : List Bytes) (tag : Bytes)
    → (tag == []) ≡ false
    → is_untrimmed tag ≡ false
    → ltb max_skill_tag_bytes (length tag) ≡ false
    → contains tag seen ≡ false
    → validate_tag seen tag ≡ none
unfolding validate_tag
validate_tag-none seen tag e u l c = rw (e, u, l, c) refl

-- A new tag joins checked ones.
validate_tags-append :
    (seen tags : List Bytes) (tag : Bytes)
    → ((others : List Bytes) → contains tag others ≡ false → validate_tag others tag ≡ none)
    → contains tag seen ≡ false
    → contains tag tags ≡ false
    → validate_tags seen tags ≡ none
    → validate_tags seen (tags ++ (tag ∷ [])) ≡ none
unfolding validate_tags
validate_tags-append seen [] tag ok s c h = rw (ok seen s) refl
validate_tags-append seen (t ∷ tags) tag ok s c h =
    let (x, y) = or_else_none (validate_tag seen t) (validate_tags (t ∷ seen) tags) h in
    rw x (validate_tags-append (t ∷ seen) tags tag ok (ground arith) (ground arith) y)

-- the tags kept so far
abbrev pub AreChecked : List Bytes → Type 0
AreChecked tags = (length tags ≤ max_skill_tags) × (validate_tags [] tags ≡ none)

accept_tag-AreChecked :
    (index : ℕ) (output : List Bytes) (v : Value)
    → length output < max_skill_tags
    → AreChecked output
    → AreChecked (accept_tag index output v).0
unfolding accept_tag
accept_tag-AreChecked index output (Value.text raw) l c =
    let value = trim_space raw in
    elim (Bool-cases (value == [])) [
      | inl e ↦ rw e c
      | inr e ↦ elim (Bool-cases (ltb max_skill_tag_bytes (length value))) [
        | inl b ↦ rw (e, b) c
        | inr b ↦ elim (Bool-cases (contains value output)) [
          | inl d ↦ rw (e, b, d) c
          | inr d ↦
              let new =
                validate_tags-append [] output value
                  (λ others o. validate_tag-none others value e (is_untrimmed-trim_space raw) b o)
                  refl d c.1 in
              rw (e, b, d) (omega (arith, l, length-append output (value ∷ [])), new)
        ]
      ]
    ]
accept_tag-AreChecked index output Value.null l c = c
accept_tag-AreChecked index output (Value.scalar t) l c = c
accept_tag-AreChecked index output (Value.items t) l c = c
accept_tag-AreChecked index output (Value.texts t) l c = c
accept_tag-AreChecked index output (Value.objects t) l c = c
accept_tag-AreChecked index output (Value.object t) l c = c
accept_tag-AreChecked index output (Value.mapping t) l c = c

tags_loop-AreChecked :
    (index : ℕ) (output : List Bytes) (w : List Bytes) (vs : List Value)
    → AreChecked output
    → AreChecked (tags_loop index output w vs).0
unfolding tags_loop
tags_loop-AreChecked index output w [] c = c
tags_loop-AreChecked index output w (v ∷ vs) c =
    let next = accept_tag index output v in
    elim (Bool-cases (leb max_skill_tags (length output))) [
      | inl e ↦ rw e c
      | inr e ↦ rw e (
          tags_loop-AreChecked (index + 1) next.0 (w ++ next.1) vs
            (accept_tag-AreChecked index output v (ground arith) c))
    ]

none-AreChecked : AreChecked []
none-AreChecked = (omega arith, unfold validate_tags in refl)

-- Whatever the field holds, there are at most 64 tags, and each passes the checks.
pub parse_skill_document_tags-AreChecked : (v : Value) → AreChecked (parse_skill_document_tags v).0
unfolding parse_skill_document_tags
parse_skill_document_tags-AreChecked Value.null = none-AreChecked
parse_skill_document_tags-AreChecked (Value.text t) =
    tags_loop-AreChecked 0 [] _ (Value.text t ∷ []) none-AreChecked
parse_skill_document_tags-AreChecked (Value.scalar t) = none-AreChecked
parse_skill_document_tags-AreChecked (Value.items vs) =
    tags_loop-AreChecked 0 [] [] (value_list vs) none-AreChecked
parse_skill_document_tags-AreChecked (Value.texts ts) =
    tags_loop-AreChecked 0 [] [] (text_list ts) none-AreChecked
parse_skill_document_tags-AreChecked (Value.objects fs) = none-AreChecked
parse_skill_document_tags-AreChecked (Value.object fs) = none-AreChecked
parse_skill_document_tags-AreChecked (Value.mapping ps) = none-AreChecked
