-- ===== src/Document/RereadTags.antt =====
-- The tags that `MarshalSkillDocument` writes are those that `ParseSkillDocument` reads.
use agentskills_go.Base.{
  ℕ, ◌+◌, ◌≤◌, Bytes, bytes_eq, false, ◌||◌, List, [], ◌∷◌, ◌++◌, none, ◌≡◌, ◌∙◌, refl, sym, ap,
  arith, ltb, leb, ◌==◌, length, length-append, contains, contains-append, append_assoc, append-nil,
}
use agentskills_go.Document.Checks.{refuse_if, is_untrimmed, validate_tag, validate_tags}
use agentskills_go.Document.Items.{accept_tag, tags_loop, parse_skill_document_tags}
use agentskills_go.Document.Encoded.{text_items}
use agentskills_go.Document.Kept.{or_else_none}
use agentskills_go.Document.Limits.{
  tag_untrimmed, tag_too_long, max_skill_tags, max_skill_tag_bytes,
}
use agentskills_go.Document.Values.{value_list}
use agentskills_go.Spec.{Value}
use agentskills_go.Text.{trim_space}

-- What a passed check says of a tag.
record IsFine (seen : List Bytes) (tag : Bytes) : Type 0 where
  trimmed : trim_space tag ≡ tag
  shown : (tag == []) ≡ false
  fits : ltb max_skill_tag_bytes (length tag) ≡ false
  new : contains tag seen ≡ false

validate_tag-IsFine :
    (seen : List Bytes) (tag : Bytes) → validate_tag seen tag ≡ none → IsFine seen tag
unfolding validate_tag
validate_tag-IsFine seen tag h =
    let (x, h1) = or_else_none (refuse_if (tag == [] || is_untrimmed tag) tag_untrimmed) _ h in
    let (y, z) =
      or_else_none (refuse_if (ltb max_skill_tag_bytes (length tag)) tag_too_long) _ h1 in
    record {
      trimmed = sym ((bytes_eq.beq_iff tag (trim_space tag)).0 (ground arith));
      shown = ground arith;
      fits = ground arith;
      new = ground arith;
    }

accept_tag-IsFine :
    (index : ℕ) (output : List Bytes) (tag : Bytes)
    → IsFine output tag
    → accept_tag index output (Value.text tag) ≡ (output ++ (tag ∷ []), [])
unfolding accept_tag
accept_tag-IsFine index output tag f = rw (f.trimmed, f.shown, f.fits, f.new) refl

tags_loop-step :
    (index : ℕ) (output w : List Bytes) (v : Value) (vs : List Value) (next : List Bytes)
    → leb max_skill_tags (length output) ≡ false
    → accept_tag index output v ≡ (next, [])
    → tags_loop index output w (v ∷ vs) ≡ tags_loop (index + 1) next w vs
unfolding tags_loop
tags_loop-step index output w v vs next l e = rw l (
    ap (λ (r : List Bytes × List Bytes). tags_loop (index + 1) r.0 (w ++ r.1) vs) e
    ∙ ap (λ x. tags_loop (index + 1) next x vs) (append-nil w))

tags_loop-written :
    (index : ℕ) (output tags w seen : List Bytes)
    → length output + length tags ≤ max_skill_tags
    → ((k : Bytes) → contains k seen ≡ contains k output)
    → validate_tags seen tags ≡ none
    → tags_loop index output w (value_list (text_items tags)) ≡ (output ++ tags, w)
unfolding value_list validate_tags
tags_loop-written index output [] w seen l s h =
    unfold tags_loop in ap (λ x. (x, w)) (sym (append-nil output))
tags_loop-written index output (t ∷ tags) w seen l s h =
    let (x, y) = or_else_none (validate_tag seen t) (validate_tags (t ∷ seen) tags) h in
    let f = validate_tag-IsFine seen t x in
    let fine : IsFine output t = record {
      trimmed = f.trimmed;
      shown = f.shown;
      fits = f.fits;
      new = sym (s t) ∙ f.new;
    } in
    let next = output ++ (t ∷ []) in
    tags_loop-step index output w (Value.text t) (value_list (text_items tags)) next (ground arith)
      (accept_tag-IsFine index output t fine)
    ∙ tags_loop-written (index + 1) next tags w (t ∷ seen)
        (omega (arith, l, length-append output (t ∷ [])))
        (λ k. ground (arith, s k, contains-append k output (t ∷ []))) y
    ∙ ap (λ x. (x, w)) (append_assoc output (t ∷ []) tags)

-- The tags of a checked document are read back from the list that is written for them, without a
-- warning.
pub parse_skill_document_tags-written :
    (tags : List Bytes)
    → length tags ≤ max_skill_tags
    → validate_tags [] tags ≡ none
    → parse_skill_document_tags (Value.items (text_items tags)) ≡ (tags, [])
unfolding parse_skill_document_tags
parse_skill_document_tags-written tags l h =
    tags_loop-written 0 [] tags [] [] (omega (arith, l)) (λ k. refl) h
