-- ===== src/Catalog/Handles.antt =====
-- The handles that a language model sees name one skill each, and lead back to it.
use agentskills_go.Base.{
  Bytes, bytes_eq, nat_eq, false, [], ◌∷◌, ◌++◌, some, ◌==◌, ==_refl, ◌≡◌, ◌≢◌, ◌∙◌, sym, refl, ap,
  arith, inl, inr, Bool-cases, Option-cases, lookup, keys, contains, IsDistinct, is_some-lookup,
  lookup-map_insert, bytes_beq_iff,
}
use agentskills_go.Catalog.Entries.{
  renamed, renamed_fields, renamed_name, lookup-rename_entries, group_size-two, keys-rename_entries,
}
use agentskills_go.Catalog.Names.{
  ByKey, rename_entries, hashed_name, short_hash_def, index_handles, recompute_llm_names,
}
use agentskills_go.Catalog.Ops.{handle_for_key, resolve_handle, norm_handle}
use agentskills_go.Catalog.State.{Entry, Catalog}
use agentskills_go.Spec.{ProviderSkillKey, SkillHandle, ProviderSkillIndexRecord, key_eq, handle_eq}

-- no `#` in a name
abbrev pub HasNoHash : Bytes → Type 0
HasNoHash name = contains b'#' name ≡ false

-- Two names and two hashes are told apart in `name#hash`.
split_hash :
    (n n' h h' : Bytes)
    → HasNoHash n
    → HasNoHash n'
    → n ++ (b'#' ∷ h) ≡ n' ++ (b'#' ∷ h')
    → (n ≡ n') × (h ≡ h')
split_hash [] [] h h' p q e = (refl, ground arith)
split_hash [] (b ∷ n') h h' p q e = absurd (ground arith)
split_hash (a ∷ n) [] h h' p q e = absurd (ground arith)
split_hash (a ∷ n) (b ∷ n') h h' p q e = ground (arith, split_hash n n' h h')

no_hash-ne : (n n' h : Bytes) → HasNoHash n → n ≢ n' ++ (b'#' ∷ h)
no_hash-ne [] [] h p e = ground arith
no_hash-ne [] (b ∷ n') h p e = ground arith
no_hash-ne (a ∷ n) [] h p e = ground arith
no_hash-ne (a ∷ n) (b ∷ n') h p e = no_hash-ne n n' h (ground arith) (ground arith)

abbrev pub handle_of : Entry → SkillHandle
handle_of e = record { name = e.llm_name; location = e.def.location }

-- An entry of the handle index comes from an entry of the map.
index_handles_sound :
    (m : ByKey) (h : SkillHandle) (k : ProviderSkillKey)
    → IsDistinct (keys m)
    → ((j : ProviderSkillKey) (e : Entry) → lookup j m ≡ some e → e.idx.key ≡ j)
    → lookup h (index_handles m) ≡ some k
    → (e : Entry) × (lookup k m ≡ some e) × (handle_of e ≡ h)
unfolding index_handles
index_handles_sound [] h k d own e = absurd (ground arith)
index_handles_sound ((j, x) ∷ m) h k d own e = elim (Bool-cases (handle_of x == h)) [
  | inl here ↦
      let own_x = own j x (ground (arith, ==_refl j)) in
      (
        x,
        ground (
          arith,
          lookup-map_insert (handle_of x) h x.idx.key (index_handles m),
          key_eq.beq_iff j k,
        ),
        (handle_eq.beq_iff (handle_of x) h).0 here,
      )
  | inr other ↦
      let (y, at, same) =
        index_handles_sound m h k d.1
          (λ i z hz. own i z (ground (arith, is_some-lookup i m, key_eq.beq_iff j i)))
          (ground (arith, lookup-map_insert (handle_of x) h x.idx.key (index_handles m))) in
      (y, ground (arith, is_some-lookup k m, key_eq.beq_iff j k), same)
]

-- Each entry of the map has one.
index_handles_complete :
    (m : ByKey) (h : SkillHandle) (k : ProviderSkillKey) (e : Entry)
    → lookup k m ≡ some e
    → handle_of e ≡ h
    → (k' : ProviderSkillKey) × (lookup h (index_handles m) ≡ some k')
unfolding index_handles
index_handles_complete [] h k e at same = absurd (ground arith)
index_handles_complete ((j, x) ∷ m) h k e at same = elim (Bool-cases (handle_of x == h)) [
  | inl here ↦
      (x.idx.key, ground (arith, lookup-map_insert (handle_of x) h x.idx.key (index_handles m)))
  | inr other ↦
      let tail_at : lookup k m ≡ some e = ground (arith, handle_eq.beq_iff (handle_of x) h) in
      let (k', found) = index_handles_complete m h k e tail_at same in
      (k', ground (arith, lookup-map_insert (handle_of x) h x.idx.key (index_handles m)))
]

module _ (sha256_hex : Bytes → Bytes) where
  -- No name has a `#`, an entry stands under its own key, and the short hashes of two skills with
  -- one name and location differ.
  pub record IsNamed (m : ByKey) : Type 0 where
    pub no_hash :
        (k : ProviderSkillKey) (e : Entry) → lookup k m ≡ some e → HasNoHash e.idx.key.name
    pub own_key : (k : ProviderSkillKey) (e : Entry) → lookup k m ≡ some e → e.idx.key ≡ k
    pub no_clash :
        (j k : ProviderSkillKey) (d e : Entry)
        → lookup j m ≡ some d
        → lookup k m ≡ some e
        → d.idx.key.name ≡ e.idx.key.name
        → d.def.location ≡ e.def.location
        → short_hash_def sha256_hex d.def ≡ short_hash_def sha256_hex e.def
        → j ≡ k

  -- Two entries with one handle are one entry.
  renamed_unique :
      (m : ByKey) (j k : ProviderSkillKey) (d e : Entry)
      → IsNamed m
      → lookup j m ≡ some d
      → lookup k m ≡ some e
      → handle_of (renamed sha256_hex m d) ≡ handle_of (renamed sha256_hex m e)
      → j ≡ k
  unfolding hashed_name
  renamed_unique m j k d e v hd he same =
      let loc : d.def.location ≡ e.def.location = cc (
        ap (λ (h : SkillHandle). h.location) same,
        (renamed_fields sha256_hex m d).0,
        (renamed_fields sha256_hex m e).0,
      ) in
      let nam : (renamed sha256_hex m d).llm_name ≡ (renamed sha256_hex m e).llm_name =
        ap (λ (h : SkillHandle). h.name) same in
      let nd = v.no_hash j d hd in
      let ne = v.no_hash k e he in
      elim (renamed_name sha256_hex m d) [
        | inl (pd, one) ↦ elim (renamed_name sha256_hex m e) [
          | inl (pe, one') ↦ elim (Bool-cases (j == k)) [
            | inl eq ↦ (key_eq.beq_iff j k).0 eq
            | inr diff ↦
                let two =
                  group_size-two d.idx.key.name d.def.location m j k d e hd he
                    (λ q. ground (arith, (key_eq.beq_iff j k).1 q))
                    (ground (arith, ==_refl d.idx.key.name, ==_refl d.def.location))
                    (ground (
                      arith,
                      bytes_beq_iff e.idx.key.name d.idx.key.name,
                      bytes_beq_iff e.def.location d.def.location,
                    )) in
                absurd (omega arith)
          ]
          | inr pe ↦ absurd (no_hash-ne _ _ _ nd (sym pd ∙ nam ∙ pe))
        ]
        | inr pd ↦ elim (renamed_name sha256_hex m e) [
          | inl (pe, one') ↦ absurd (no_hash-ne _ _ _ ne (sym pe ∙ sym nam ∙ pd))
          | inr pe ↦
              let (n, h) = split_hash _ _ _ _ nd ne (sym pd ∙ nam ∙ pe) in
              v.no_clash j k d e hd he n loc h
        ]
      ]

  -- A catalog whose names have just been computed leads each handle that it gives out back to the
  -- key that it was asked for, if the handle has no outer white space, no skill name has a `#`, no
  -- key stands twice, each entry stands under its own key, and the short hashes of two skills with
  -- one name and location differ.
  pub resolve-handle_for_key :
      (c : Catalog) (k : ProviderSkillKey) (h : SkillHandle)
      → IsDistinct (keys c.by_key)
      → IsNamed c.by_key
      → handle_for_key (recompute_llm_names sha256_hex c) k ≡ some h
      → norm_handle h ≡ h
      → resolve_handle (recompute_llm_names sha256_hex c) h ≡ some k
  unfolding handle_for_key resolve_handle recompute_llm_names
  resolve-handle_for_key c k h d v given trimmed =
      let m = c.by_key in
      let look = lookup-rename_entries sha256_hex in
      elim (Option-cases (lookup k m)) [
        | inl miss ↦ absurd (ground (arith, look k m))
        | inr (e, hit) ↦
            let mine : handle_of (renamed sha256_hex m e) ≡ h = ground (arith, look k m) in
            let (k', found) =
              index_handles_complete (rename_entries sha256_hex m) h k (renamed sha256_hex m e)
                (ground (arith, look k m)) mine in
            let (x, at, same) =
              index_handles_sound (rename_entries sha256_hex m) h k' (distinct_renamed m d)
                (own_renamed m v) found in
            elim (Option-cases (lookup k' m)) [
              | inl miss ↦ absurd (ground (arith, look k' m))
              | inr (e', hit') ↦
                  let x' : renamed sha256_hex m e' ≡ x = ground (arith, look k' m) in
                  let k'_k =
                    renamed_unique m k' k e' e v hit' hit (ap handle_of x' ∙ same ∙ sym mine) in
                  rw trimmed (found ∙ ap some k'_k)
            ]
      ]
    where
      distinct_renamed :
          (m : ByKey) → IsDistinct (keys m) → IsDistinct (keys (rename_entries sha256_hex m))
      distinct_renamed m d = rw (keys-rename_entries sha256_hex m) d

      own_renamed :
          (m : ByKey)
          → IsNamed m
          → (j : ProviderSkillKey) (x : Entry) → lookup j (rename_entries sha256_hex m) ≡ some x
          → x.idx.key ≡ j
      own_renamed m v j x at = elim (Option-cases (lookup j m)) [
        | inl miss ↦ absurd (ground (arith, lookup-rename_entries sha256_hex j m))
        | inr (e, hit) ↦
            let x' : renamed sha256_hex m e ≡ x =
              ground (arith, lookup-rename_entries sha256_hex j m) in
            ap (λ (y : Entry). y.idx.key) (sym x')
            ∙ ap (λ (y : ProviderSkillIndexRecord). y.key) (renamed_fields sha256_hex m e).1
            ∙ v.own_key j e hit
      ]
