-- ===== src/FsProvider/Bounds.antt =====
-- The resources that are listed: at most 1024, and all that there are up to that number.
use agentskills_go.Base.{
  ℕ, ◌+◌, ◌≤◌, Bytes, bytes_eq, true, List, [], ◌∷◌, none, ◌≡◌, refl, subst, arith, inl, inr,
  Bool-cases, Option-cases, ltb, length, length-append,
}
use agentskills_go.FsProvider.Resources.{
  Scan, empty_scan, max_skill_resource_locations, count_file, skip_resource, scan_info, scan_entry,
  scan_call, scan_calls, resource_info, index_skill_resources, resource_rel_location,
}
use agentskills_go.FsProvider.System.{EntryInfo, DirEntry, WalkCall, FileSystem}
use agentskills_go.Spec.{Result-cases, ok, Ctx, SkillResourceInfo}
use agentskills_go.Text.{trim_space}

-- The locations are the first files, up to the limit.
abbrev IsCounted : Scan → Type 0
IsCounted scan =
    (length scan.locations ≤ max_skill_resource_locations)
    × (length scan.locations ≤ scan.total_count)
    × (scan.total_count ≤ max_skill_resource_locations → scan.total_count ≤ length scan.locations)

count_file-IsCounted :
    (rel : Bytes) (scan : Scan) → IsCounted scan → IsCounted (count_file rel scan)
unfolding count_file
count_file-IsCounted rel scan (a, b, c) =
    elim (Bool-cases (ltb (length scan.locations) max_skill_resource_locations)) [
      | inl e ↦
          let l = length-append scan.locations (rel ∷ []) in
          rw e (omega (arith, l, ltb_lt _ _ e), omega (arith, l, b), λ h. omega (arith, l, c, h))
      | inr e ↦ rw e (a, omega (arith, b), λ h. absurd (ground arith))
    ]
  where
    ltb_lt : (n m : ℕ) → ltb n m ≡ true → n + 1 ≤ m
    ltb_lt n m h = ground arith

-- `P` stands for being counted; a skipped entry changes no count.
module _ (fs : FileSystem) (quote : Bytes → Bytes) (P : Scan → Type 0)
    (counts : (rel : Bytes) (scan : Scan) → P scan → P (count_file rel scan))
    (skips : (rel text : Bytes) (scan : Scan)
      → P scan
      → P (skip_resource fs quote rel text scan)) where
  scan_info-keeps :
      (rel : Bytes) (info : EntryInfo) (scan : Scan) → P scan → P (scan_info fs quote rel info scan)
  unfolding scan_info
  scan_info-keeps rel (EntryInfo.failed text) scan p = skips rel text scan p
  scan_info-keeps rel (EntryInfo.found is_regular) scan p = ground (arith, p, counts rel scan p)

  scan_entry-keeps :
      (rel : Bytes) (d : DirEntry) (scan : Scan) → P scan → P (scan_entry fs quote rel d scan)
  unfolding scan_entry
  scan_entry-keeps rel d scan p = ground (arith, p, scan_info-keeps rel d.info scan p)

  scan_call-keeps :
      (root : Bytes) (call : WalkCall) (scan : Scan)
      → P scan
      → P (scan_call fs quote root call scan)
  unfolding scan_call
  scan_call-keeps root call scan p =
      let rel = resource_rel_location fs quote root call.path in
      elim (Option-cases call.walk_err) [
        | inr (text, e) ↦ ground (arith, skips rel text scan p)
        | inl e ↦ elim (Option-cases call.entry) [
          | inl f ↦ ground (arith, p)
          | inr (d, f) ↦ ground (arith, scan_entry-keeps rel d scan p)
        ]
      ]

  scan_calls-keeps :
      (ctx_at : ℕ → Ctx) (root : Bytes) (scan scan' : Scan) (calls : List WalkCall)
      → P scan
      → scan_calls fs quote ctx_at root scan calls ≡ ok scan'
      → P scan'
  unfolding scan_calls
  scan_calls-keeps ctx_at root scan scan' [] p h = subst P (ground arith) p
  scan_calls-keeps ctx_at root scan scan' (call ∷ calls) p h =
      scan_calls-keeps ctx_at root (scan_call fs quote root call scan) scan' calls
        (scan_call-keeps root call scan p) (ground arith)

module _ (fs : FileSystem) (quote : Bytes → Bytes) where
  skip_resource-IsCounted :
      (rel text : Bytes) (scan : Scan)
      → IsCounted scan
      → IsCounted (skip_resource fs quote rel text scan)
  unfolding skip_resource
  skip_resource-IsCounted rel text scan c = c

  -- A skill with resources lists at most 1024 of them, and says that there are more exactly if there
  -- are more than 1024.
  pub index_skill_resources-bounds :
      (ctx_at : ℕ → Ctx) (root : Bytes) (info : SkillResourceInfo) (warnings : List Bytes)
      → index_skill_resources fs quote ctx_at none root ≡ ok (info, warnings)
      → (length info.locations ≤ max_skill_resource_locations)
        × (info.has_resources ≡ ltb 0 info.total_count)
        × (info.more_locations ≡ ltb max_skill_resource_locations info.total_count)
  unfolding index_skill_resources
  index_skill_resources-bounds ctx_at root info warnings h =
      elim (Result-cases
        (scan_calls fs quote ctx_at (trim_space root) empty_scan (fs.walk (trim_space root)))) [
          | inr (x, e) ↦ absurd (ground arith)
          | inl (scan, e) ↦
              let c =
                scan_calls-keeps fs quote IsCounted count_file-IsCounted skip_resource-IsCounted
                  ctx_at (trim_space root) empty_scan scan (fs.walk (trim_space root))
                  (omega arith, omega arith, λ l. omega arith) e in
              let same : resource_info fs quote scan ≡ info = ground arith in
              subst
                (λ (i : SkillResourceInfo).
                  (length i.locations ≤ max_skill_resource_locations)
                  × (i.has_resources ≡ ltb 0 i.total_count)
                  × (i.more_locations ≡ ltb max_skill_resource_locations i.total_count))
                same (c.0, refl, more (length scan.locations) scan.total_count c.0 c.1 c.2)
        ]
    where
      more : (l t : ℕ) → l ≤ 1024 → l ≤ t → (t ≤ 1024 → t ≤ l) → ltb l t ≡ ltb 1024 t
      more l t a b c = ground (arith, c)
