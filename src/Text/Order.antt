-- ===== src/Text/Order.antt =====
-- `sort.Slice` by a pair of strings, which the listings and the prompt use. Go leaves the order of
-- equal elements open; here it is that of an insertion sort.
use agentskills_go.Base.{
  Bytes, bytes_eq, Bool, true, false, ◌&&◌, not, List, [], ◌∷◌, ◌≡◌, refl, arith, if◌then◌else◌,
  ◌==◌, keep, length,
}
use agentskills_go.Text.Sort.{bytes_ltb, bytes_ltb_trans, bytes_ltb_total}

-- by the first string, and by the second where the first are equal
unfoldable pub pair_less : Bytes × Bytes → Bytes × Bytes → Bool
pair_less p q = if p.0 == q.0 then bytes_ltb p.1 q.1 else bytes_ltb p.0 q.0

bytes_ltb_asym : (s t : Bytes) → bytes_ltb s t ≡ true → bytes_ltb t s ≡ false
bytes_ltb_asym s [] h = ground arith
bytes_ltb_asym [] (b ∷ t) h = refl
bytes_ltb_asym (a ∷ s) (b ∷ t) h = ground (arith, bytes_ltb_asym s t)

bytes_not_less_trans :
    (s t u : Bytes) → bytes_ltb t s ≡ false → bytes_ltb u t ≡ false → bytes_ltb u s ≡ false
bytes_not_less_trans s t u h k =
    ground (arith, bytes_ltb_total t s h, bytes_eq.beq_iff t s, bytes_ltb_trans u s t)

pub pair_less_asym : (p q : Bytes × Bytes) → pair_less p q ≡ true → pair_less q p ≡ false
unfolding pair_less
pair_less_asym p q h = ground (
  arith,
  bytes_ltb_asym p.0 q.0,
  bytes_ltb_asym p.1 q.1,
  bytes_eq.beq_iff p.0 q.0,
  bytes_eq.beq_iff q.0 p.0,
)

pub pair_not_less_trans :
    (p q r : Bytes × Bytes) → pair_less q p ≡ false → pair_less r q ≡ false → pair_less r p ≡ false
unfolding pair_less
pair_not_less_trans p q r h k = ground (
  arith,
  bytes_not_less_trans p.0 q.0 r.0,
  bytes_not_less_trans p.1 q.1 r.1,
  bytes_eq.beq_iff q.0 p.0,
  bytes_eq.beq_iff r.0 q.0,
  bytes_eq.beq_iff r.0 p.0,
  bytes_ltb_total q.0 p.0,
  bytes_ltb_total r.0 q.0,
  bytes_ltb_trans r.0 q.0 p.0,
  bytes_ltb_asym p.0 q.0,
  bytes_ltb_asym q.0 r.0,
  bytes_ltb_asym r.0 p.0,
)

module _ {A : Type 0} (key : A → Bytes × Bytes) where
  unfoldable pub insert_by : A → List A → List A
  insert_by x [] = x ∷ []
  insert_by x (y ∷ ys) =
      let rest = insert_by x ys in if pair_less (key y) (key x) then y ∷ rest else x ∷ y ∷ ys

  unfoldable pub sort_by : List A → List A
  sort_by [] = []
  sort_by (x ∷ xs) = insert_by x (sort_by xs)

  -- nothing in the list is less than `x`
  abbrev pub none_less : A → List A → Bool
  none_less x [] = true
  none_less x (y ∷ ys) = not (pair_less (key y) (key x)) && none_less x ys

  abbrev pub is_sorted : List A → Bool
  is_sorted [] = true
  is_sorted (x ∷ xs) = none_less x xs && is_sorted xs

  none_less_trans :
      (x y : A) (ys : List A)
      → pair_less (key y) (key x) ≡ false
      → none_less y ys ≡ true
      → none_less x ys ≡ true
  none_less_trans x y [] h k = refl
  none_less_trans x y (z ∷ ys) h k =
      ground (arith, none_less_trans x y ys, pair_not_less_trans (key x) (key y) (key z))

  none_less-insert_by :
      (x y : A) (ys : List A)
      → none_less y (insert_by x ys) ≡ (not (pair_less (key x) (key y)) && none_less y ys)
  unfolding insert_by
  none_less-insert_by x y [] = refl
  none_less-insert_by x y (z ∷ ys) = ground (arith, none_less-insert_by x y ys)

  insert_by-is_sorted :
      (x : A) (ys : List A) → is_sorted ys ≡ true → is_sorted (insert_by x ys) ≡ true
  unfolding insert_by
  insert_by-is_sorted x [] h = refl
  insert_by-is_sorted x (y ∷ ys) h = ground (
    arith,
    insert_by-is_sorted x ys,
    none_less-insert_by x y ys,
    pair_less_asym (key y) (key x),
    none_less_trans x y ys,
  )

  pub sort_by-is_sorted : (xs : List A) → is_sorted (sort_by xs) ≡ true
  unfolding sort_by
  sort_by-is_sorted [] = refl
  sort_by-is_sorted (x ∷ xs) = insert_by-is_sorted x (sort_by xs) (sort_by-is_sorted xs)

  keep-insert_by :
      (p : A → Bool) (x : A) (ys : List A)
      → length (keep p (insert_by x ys)) ≡ length (keep p (x ∷ ys))
  unfolding insert_by
  keep-insert_by p x [] = refl
  keep-insert_by p x (y ∷ ys) = ground (arith, keep-insert_by p x ys)

  -- Sorting neither drops nor adds an element.
  pub keep-sort_by :
      (p : A → Bool) (xs : List A) → length (keep p (sort_by xs)) ≡ length (keep p xs)
  unfolding sort_by
  keep-sort_by p [] = refl
  keep-sort_by p (x ∷ xs) = ground (arith, keep-insert_by p x (sort_by xs), keep-sort_by p xs)
