-- ===== src/Store/Recent.antt =====
-- Lists of LRU elements: what a deletion at the back leaves, and lists in the order of use.
use agentskills_go.Base.{
  ℕ, ◌≤◌, Bytes, bytes_eq, Bool, true, false, List, [], ◌∷◌, ◌++◌, some, ==_refl, ◌≡◌, ◌⊎◌, inl,
  inr, refl, ap, arith, ℤ, pos, negsuc, keep, contains, contains-append, IsDistinct, set_delete,
}
use agentskills_go.Store.State.{Item, remove, back, is_fresh}

abbrev pub ids : List Item → List Bytes
ids [] = []
ids (it ∷ l) = it.s ∷ ids l

-- In the order of use, the latest in front, and none later than `now`.
abbrev pub IsRecent : ℕ → List Item → Type 0
IsRecent now [] = Unit
IsRecent now (it ∷ l) = (it.last_used ≤ now) × IsRecent it.last_used l

-- A list is empty or has a last element.
pub snoc-cases {ℓ} :
    {A : Type ℓ} (l : List A) → (l ≡ []) ⊎ ((xs : List A) × (x : A) × (l ≡ xs ++ x ∷ []))
snoc-cases [] = inl refl
snoc-cases (x ∷ l) = elim (snoc-cases l) [
  | inl e ↦ inr ([], x, ap (◌∷◌ x) e)
  | inr (xs, y, e) ↦ inr (x ∷ xs, y, ap (◌∷◌ x) e)
]

pub back-snoc : (xs : List Item) (it : Item) → back (xs ++ it ∷ []) ≡ some it
back-snoc [] it = refl
back-snoc (x ∷ xs) it = ground (arith, back-snoc xs it)

pub ids-append : (xs ys : List Item) → ids (xs ++ ys) ≡ ids xs ++ ids ys
ids-append [] ys = refl
ids-append (x ∷ xs) ys = ap (◌∷◌ x.s) (ids-append xs ys)

pub ids-remove : (id : Bytes) (l : List Item) → ids (remove id l) ≡ set_delete id (ids l)
ids-remove id [] = refl
ids-remove id (it ∷ l) = ground (arith, ids-remove id l)

pub remove_absent : (id : Bytes) (l : List Item) → contains id (ids l) ≡ false → remove id l ≡ l
remove_absent id [] h = refl
remove_absent id (it ∷ l) h = ground (arith, remove_absent id l)

pub remove-snoc :
    (xs : List Item) (it : Item)
    → IsDistinct (ids (xs ++ it ∷ []))
    → remove it.s (xs ++ it ∷ []) ≡ xs
remove-snoc [] it d = ground (arith, ==_refl it.s)
remove-snoc (x ∷ xs) it d = ground (
  arith,
  remove-snoc xs it d.1,
  ids-append xs (it ∷ []),
  contains-append x.s (ids xs) (it.s ∷ []),
  bytes_eq.beq_iff it.s x.s,
  bytes_eq.beq_iff x.s it.s,
)

pub IsRecent-mono : (a b : ℕ) (l : List Item) → a ≤ b → IsRecent a l → IsRecent b l
IsRecent-mono a b [] h r = tt
IsRecent-mono a b (it ∷ l) h r = (omega arith, r.1)

pub keep-IsRecent :
    (p : Item → Bool) (now : ℕ) (l : List Item) → IsRecent now l → IsRecent now (keep p l)
keep-IsRecent p now [] r = tt
keep-IsRecent p now (it ∷ l) r =
    ground
      (arith, keep-IsRecent p it.last_used l r.1, IsRecent-mono it.last_used now (keep p l) r.0)

pub IsRecent-last :
    (now : ℕ) (xs : List Item) (it : Item) → IsRecent now (xs ++ it ∷ []) → it.last_used ≤ now
IsRecent-last now [] it r = r.0
IsRecent-last now (x ∷ xs) it r = omega (arith, IsRecent-last x.last_used xs it r.1)

is_fresh_mono :
    (ttl : ℤ) (now : ℕ) (a b : Item)
    → a.last_used ≤ b.last_used
    → is_fresh ttl now a ≡ true
    → is_fresh ttl now b ≡ true
unfolding is_fresh
is_fresh_mono (pos n) now a b h e = ground arith
is_fresh_mono (negsuc n) now a b h e = cc

-- If the least recent element is fresh, all are.
pub keep-is_fresh :
    (ttl : ℤ) (now t : ℕ) (xs : List Item) (it : Item)
    → IsRecent t (xs ++ it ∷ [])
    → is_fresh ttl now it ≡ true
    → keep (is_fresh ttl now) (xs ++ it ∷ []) ≡ xs ++ it ∷ []
keep-is_fresh ttl now t [] it r f = ground arith
keep-is_fresh ttl now t (x ∷ xs) it r f = ground (
  arith,
  keep-is_fresh ttl now x.last_used xs it r.1 f,
  is_fresh_mono ttl now it x (IsRecent-last x.last_used xs it r.1) f,
)

pub keep-snoc_stale :
    (p : Item → Bool) (xs : List Item) (it : Item)
    → p it ≡ false
    → keep p (xs ++ it ∷ []) ≡ keep p xs
keep-snoc_stale p [] it h = ground arith
keep-snoc_stale p (x ∷ xs) it h = ground (arith, keep-snoc_stale p xs it h)

pub IsRecent-init :
    (now : ℕ) (xs : List Item) (it : Item) → IsRecent now (xs ++ it ∷ []) → IsRecent now xs
IsRecent-init now [] it r = tt
IsRecent-init now (x ∷ xs) it r = (r.0, IsRecent-init x.last_used xs it r.1)

pub IsDistinct-init :
    (xs : List Item) (it : Item) → IsDistinct (ids (xs ++ it ∷ [])) → IsDistinct (ids xs)
IsDistinct-init [] it d = tt
IsDistinct-init (x ∷ xs) it d = (
  ground (arith, ids-append xs (it ∷ []), contains-append x.s (ids xs) (it.s ∷ [])),
  IsDistinct-init xs it d.1,
)
