-- ===== src/Text/Sort.antt =====
-- `sort.Strings`: the bytewise order of strings.
use agentskills_go.Base.{
  Bytes, bytes_eq, Bool, true, false, ◌&&◌, ◌||◌, List, [], ◌∷◌, ◌≡◌, refl, arith, ltb, nat_beq,
  if◌then◌else◌, contains, ◌==◌, IsDistinct,
}

-- `s < t`
abbrev pub bytes_ltb : Bytes → Bytes → Bool
bytes_ltb s [] = false
bytes_ltb [] (b ∷ t) = true
bytes_ltb (a ∷ s) (b ∷ t) = ltb a b || nat_beq a b && bytes_ltb s t

abbrev pub insert_sorted : Bytes → List Bytes → List Bytes
insert_sorted s [] = s ∷ []
insert_sorted s (t ∷ ts) =
    let rest = insert_sorted s ts in if bytes_ltb t s then t ∷ rest else s ∷ t ∷ ts

abbrev pub sort_strings : List Bytes → List Bytes
sort_strings [] = []
sort_strings (s ∷ ss) = insert_sorted s (sort_strings ss)

-- every string is below all that follow it
abbrev pub IsBelow : Bytes → List Bytes → Type 0
IsBelow s [] = Unit
IsBelow s (t ∷ ts) = (bytes_ltb s t ≡ true) × IsBelow s ts

abbrev pub IsAscending : List Bytes → Type 0
IsAscending [] = Unit
IsAscending (s ∷ ss) = IsBelow s ss × IsAscending ss

pub bytes_ltb_trans :
    (s t u : Bytes) → bytes_ltb s t ≡ true → bytes_ltb t u ≡ true → bytes_ltb s u ≡ true
bytes_ltb_trans s [] u h k = ground arith
bytes_ltb_trans s (b ∷ t) [] h k = ground arith
bytes_ltb_trans [] (b ∷ t) (c ∷ u) h k = refl
bytes_ltb_trans (a ∷ s) (b ∷ t) (c ∷ u) h k = ground (arith, bytes_ltb_trans s t u)

-- Two different strings are ordered one way.
pub bytes_ltb_total :
    (s t : Bytes) → bytes_ltb s t ≡ false → (s == t) ≡ false → bytes_ltb t s ≡ true
bytes_ltb_total [] [] h k = ground arith
bytes_ltb_total [] (b ∷ t) h k = ground arith
bytes_ltb_total (a ∷ s) [] h k = refl
bytes_ltb_total (a ∷ s) (b ∷ t) h k = ground (arith, bytes_ltb_total s t)

IsBelow-trans : (s t : Bytes) (ts : List Bytes) → bytes_ltb s t ≡ true → IsBelow t ts → IsBelow s ts
IsBelow-trans s t [] h b = tt
IsBelow-trans s t (u ∷ ts) h b = (bytes_ltb_trans s t u h b.0, IsBelow-trans s t ts h b.1)

IsBelow-insert_sorted :
    (r s : Bytes) (ts : List Bytes)
    → bytes_ltb r s ≡ true
    → IsBelow r ts
    → IsBelow r (insert_sorted s ts)
IsBelow-insert_sorted r s [] h b = (h, tt)
IsBelow-insert_sorted r s (t ∷ ts) h b = ground (arith, IsBelow-insert_sorted r s ts h b.1)

insert_sorted-IsAscending :
    (s : Bytes) (ts : List Bytes)
    → contains s ts ≡ false
    → IsAscending ts
    → IsAscending (insert_sorted s ts)
insert_sorted-IsAscending s [] c a = (tt, tt)
insert_sorted-IsAscending s (t ∷ ts) c a =
    let e : (s == t) ≡ false = ground (arith, bytes_eq.beq_iff s t, bytes_eq.beq_iff t s) in
    ground (
      arith,
      insert_sorted-IsAscending s ts,
      IsBelow-insert_sorted t s ts,
      bytes_ltb_total t s,
      bytes_eq.beq_iff t s,
      IsBelow-trans s t ts,
      bytes_ltb_total s t,
    )

pub contains-insert_sorted :
    (r s : Bytes) (ts : List Bytes) → contains r (insert_sorted s ts) ≡ (s == r || contains r ts)
contains-insert_sorted r s [] = refl
contains-insert_sorted r s (t ∷ ts) = ground (arith, contains-insert_sorted r s ts)

pub contains-sort_strings :
    (r : Bytes) (ss : List Bytes) → contains r (sort_strings ss) ≡ contains r ss
contains-sort_strings r [] = refl
contains-sort_strings r (s ∷ ss) =
    ground (arith, contains-sort_strings r ss, contains-insert_sorted r s (sort_strings ss))

pub sort_strings-IsAscending : (ss : List Bytes) → IsDistinct ss → IsAscending (sort_strings ss)
sort_strings-IsAscending [] d = tt
sort_strings-IsAscending (s ∷ ss) d =
    insert_sorted-IsAscending s (sort_strings ss) (ground (arith, contains-sort_strings s ss, d.0))
      (sort_strings-IsAscending ss d.1)
