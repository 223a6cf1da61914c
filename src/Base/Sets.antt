-- ===== src/Base/Sets.antt =====
-- Go's `map[K]struct{}` as a list of keys, slices as ordered lists of keys, and the facts on
-- membership and distinctness that the components share.
use Prim.Native.Nat.{ℕ, suc, ◌+◌, ◌≤◌}
use mathlib.Core.Bool.{Bool, true, false, ◌&&◌, ◌||◌, not}
use mathlib.Core.List.{List, [], ◌∷◌, ◌++◌}
use mathlib.Core.Path.{◌≡◌, refl}
use native.Mathlib.Omega.{arith}
use agentskills_go.Base.Eq.{EqTest, ◌==◌, ==_refl}
use agentskills_go.Base.Tests.{if◌then◌else◌}

module _ {ℓ} {A : Type ℓ} where
  abbrev pub length : List A → ℕ
  length [] = 0
  length (x ∷ xs) = suc (length xs)

  pub length-append : (xs ys : List A) → length (xs ++ ys) ≡ length xs + length ys
  length-append [] ys = omega arith
  length-append (x ∷ xs) ys = omega (arith, length-append xs ys)

  -- The elements that pass a test, in order.
  abbrev pub keep : (A → Bool) → List A → List A
  keep p [] = []
  keep p (x ∷ xs) = let rest = keep p xs in if p x then x ∷ rest else rest

  pub length-keep-le : (p : A → Bool) (xs : List A) → length (keep p xs) ≤ length xs
  length-keep-le p [] = omega arith
  length-keep-le p (x ∷ xs) = ground (arith, length-keep-le p xs)

  pub keep-append : (p : A → Bool) (xs ys : List A) → keep p (xs ++ ys) ≡ keep p xs ++ keep p ys
  keep-append p [] ys = refl
  keep-append p (x ∷ xs) ys = ground (arith, keep-append p xs ys)

module _ {ℓ} {A : Type ℓ} ⦃e : EqTest A⦄ where
  -- `_, ok := m[k]`, `slices.Contains(xs, k)`
  abbrev pub contains : A → List A → Bool
  contains a [] = false
  contains a (x ∷ xs) = x == a || contains a xs

  -- `m[k] = struct{}{}`
  abbrev pub set_insert : A → List A → List A
  set_insert a xs = if contains a xs then xs else a ∷ xs

  -- `delete(m, k)`, and the slice without `k`
  abbrev pub set_delete : A → List A → List A
  set_delete a = keep (λ x. not (x == a))

  -- the set of the elements of a slice
  abbrev pub set_of : List A → List A
  set_of [] = []
  set_of (x ∷ xs) = set_insert x (set_of xs)

  abbrev pub IsDistinct : List A → Type 0
  IsDistinct [] = Unit
  IsDistinct (x ∷ xs) = (contains x xs ≡ false) × IsDistinct xs

  pub contains-append :
      (a : A) (xs ys : List A) → contains a (xs ++ ys) ≡ (contains a xs || contains a ys)
  contains-append a [] ys = refl
  contains-append a (x ∷ xs) ys = ground (arith, contains-append a xs ys)

  pub contains-keep :
      (p : A → Bool) (a : A) (xs : List A) → contains a (keep p xs) ≡ (contains a xs && p a)
  contains-keep p a [] = refl
  contains-keep p a (x ∷ xs) = ground (arith, contains-keep p a xs, e.beq_iff x a)

  pub contains-set_of : (a : A) (xs : List A) → contains a (set_of xs) ≡ contains a xs
  contains-set_of a [] = refl
  contains-set_of a (x ∷ xs) = ground (arith, contains-set_of a xs, e.beq_iff x a)

  pub keep-IsDistinct : (p : A → Bool) (xs : List A) → IsDistinct xs → IsDistinct (keep p xs)
  keep-IsDistinct p [] d = tt
  keep-IsDistinct p (x ∷ xs) d = ground (arith, keep-IsDistinct p xs d.1, contains-keep p x xs)

  -- A distinct list followed by one that shares no element with it is distinct.
  pub append-IsDistinct :
      (xs ys : List A)
      → IsDistinct xs
      → IsDistinct ys
      → ((a : A) → contains a xs ≡ true → contains a ys ≡ false)
      → IsDistinct (xs ++ ys)
  append-IsDistinct [] ys dx dy apart = dy
  append-IsDistinct (x ∷ xs) ys dx dy apart = (
    ground (arith, contains-append x xs ys, apart x, ==_refl x),
    append-IsDistinct xs ys dx.1 dy (λ a h. apart a (ground arith)),
  )
