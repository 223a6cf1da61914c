-- ===== src/Document/Truncate.antt =====
-- `truncateValidUTF8`: the longest valid beginning within the limit.
use agentskills_go.Base.{
  ℕ, zero, suc, ◌-◌, ◌≤◌, ◌<◌, Bytes, Bool, true, false, ◌||◌, [], ◌∷◌, ◌≡◌, ◌∙◌, refl, sym, ap,
  arith, inl, inr, Bool-cases, leb, nat_beq, take, length, length-take, take-take,
  take_of_length-le,
}
use agentskills_go.Document.Lines.{drop_until_valid, truncate_valid_utf8}
use agentskills_go.Text.Utf8.{valid_utf8, valid_from}

-- `result` is the longest beginning of `value`, of at most `maximum` bytes, that is valid.
pub record IsLongestValid (maximum : ℕ) (value result : Bytes) : Type 0 where
  pub valid : valid_utf8 result ≡ true
  pub fits : length result ≤ maximum
  pub begins : take (length result) value ≡ result
  pub longest :
      (k : ℕ)
      → k ≤ maximum
      → k ≤ length value
      → valid_utf8 (take k value) ≡ true
      → k ≤ length result

-- A beginning of a text that is not valid is valid only if it is shorter.
valid-take-lt :
    (n k : ℕ) (value : Bytes)
    → length value ≡ suc n
    → valid_utf8 value ≡ false
    → k ≤ length value
    → valid_utf8 (take k value) ≡ true
    → k ≤ n
valid-take-lt n k value h v le w = elim (Bool-cases (leb k n)) [
  | inl e ↦ ground arith
  | inr e ↦
      let same = take_of_length-le k value (ground arith) in
      absurd (ground (arith, sym w ∙ ap valid_utf8 same ∙ v))
]

-- One round on a text that is not valid: what is found in the shorter text is right for the longer.
longer-IsLongestValid :
    (n : ℕ) (value result : Bytes)
    → length value ≡ suc n
    → valid_utf8 value ≡ false
    → IsLongestValid n (take n value) result
    → IsLongestValid (suc n) value result
longer-IsLongestValid n value result h v i = record {
  valid = i.valid;
  fits = omega (arith, i.fits);
  begins = sym (take-take (length result) n value i.fits) ∙ i.begins;
  longest = λ k le le' w.
      let le'' = valid-take-lt n k value h v le' w in
      i.longest k le'' (omega (arith, length-take n value (omega (arith, h)), le''))
        (ap valid_utf8 (take-take k n value le'') ∙ w);
}

-- The loop finds it among the beginnings of a text no longer than the rounds.
drop_until_valid-longest :
    (n : ℕ) (value : Bytes) → length value ≡ n → IsLongestValid n value (drop_until_valid n value)
unfolding drop_until_valid
drop_until_valid-longest zero [] h = record {
  valid = unfold valid_utf8 valid_from in refl;
  fits = omega arith;
  begins = refl;
  longest = λ k le le' v. le;
}
drop_until_valid-longest zero (b ∷ value) h = absurd (omega arith)
drop_until_valid-longest (suc n) value h = elim (Bool-cases (valid_utf8 value)) [
  | inl v ↦
      rw (v, drop_until_valid)
        (record {
          valid = v;
          fits = omega (arith, h);
          begins = take_of_length-le (length value) value (omega arith);
          longest = λ k le le' w. le';
        })
  | inr v ↦
      let shorter = take n value in
      let e : take (length value - 1) value ≡ shorter = ap (λ m. take m value) (omega (arith, h)) in
      let below = drop_until_valid-longest n shorter (length-take n value (omega (arith, h))) in
      rw (v, drop_until_valid, e)
        (longer-IsLongestValid n value (drop_until_valid n shorter) h v below)
]

-- A text that is cut, or is valid in the first place, is left as its longest beginning that is valid
-- and has at most `maximum` bytes. The maximum is not 0, which stands for no limit.
pub truncate_valid_utf8-longest :
    (value : Bytes) (maximum : ℕ)
    → 0 < maximum
    → (length value ≤ maximum → valid_utf8 value ≡ true)
    → IsLongestValid maximum value (truncate_valid_utf8 value maximum)
unfolding truncate_valid_utf8
truncate_valid_utf8-longest value maximum h v = elim (Bool-cases (leb (length value) maximum)) [
  | inl e ↦
      rw (e, truncate_valid_utf8, or_true (nat_beq maximum 0))
        (record {
          valid = v (ground arith);
          fits = ground arith;
          begins = take_of_length-le (length value) value (omega arith);
          longest = λ k le le' w. le';
        })
  | inr e ↦
      let first = take maximum value in
      let n : length first ≡ maximum = length-take maximum value (ground arith) in
      let i = drop_until_valid-longest maximum first n in
      rw (e, zero_not maximum h, truncate_valid_utf8)
        (record {
          valid = i.valid;
          fits = i.fits;
          begins =
              sym (take-take (length (drop_until_valid maximum first)) maximum value i.fits)
              ∙ i.begins;
          longest = λ k le le' w.
              i.longest k le (omega (arith, n)) (ap valid_utf8 (take-take k maximum value le) ∙ w);
        })
]
  where
    zero_not : (n : ℕ) → 0 < n → nat_beq n 0 ≡ false
    zero_not n h = ground arith

    or_true : (b : Bool) → (b || true) ≡ true
    or_true b = ground arith
