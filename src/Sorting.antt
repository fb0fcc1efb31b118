-- ===== src/Sorting.antt =====
-- `sorted(items, key=...)` over text keys: a stable insertion sort by Python's order on texts.
use Prim.Native.Nat.{Ordering, compare as compare_ℕ}
use Prim.Native.Char.{code}
use Prim.Native.String.compare
use Prim.Native.String.{compare, then as first_of_two}
use mathlib.Core.List.{Perm}
use mathlib.Core.List.Perm
use db_connections.Prelude.{
  Bool, Bool-cases, List, Option, String, [], ap, arith, eq_iff, false, find_first, if◌then◌else◌,
  inl, inr, none, refl, sym, true, ℕ, ◌==◌, ◌∙◌, ◌∷◌, ◌≡◌,
}

abbrev pub flip : Ordering → Ordering
flip Ordering.lt = Ordering.gt
flip Ordering.eq = Ordering.eq
flip Ordering.gt = Ordering.lt

abbrev not_gt : Ordering → Bool
not_gt Ordering.gt = false
not_gt _ = true

-- `s <= t` on texts
unfoldable pub text_le : String → String → Bool
text_le s t = not_gt (compare s t)

compare_ℕ-flip : (m n : ℕ) → compare_ℕ n m ≡ flip (compare_ℕ m n)
compare_ℕ-flip m n = ground arith

then-flip : (o p : Ordering) → flip (first_of_two o p) ≡ first_of_two (flip o) (flip p)
then-flip Ordering.lt p = refl
then-flip Ordering.eq p = refl
then-flip Ordering.gt p = refl

compare-flip : (s t : String) → compare t s ≡ flip (compare s t)
compare-flip String.[] String.[] = compare.nil-nil ∙ ap flip (sym compare.nil-nil)
compare-flip String.[] (String.◌∷◌ d t) =
    compare.cons-nil d t ∙ ap flip (sym (compare.nil-cons d t))
compare-flip (String.◌∷◌ c s) String.[] =
    compare.nil-cons c s ∙ ap flip (sym (compare.cons-nil c s))
compare-flip (String.◌∷◌ c s) (String.◌∷◌ d t) = cc (
  compare.cons-cons d c t s,
  compare.cons-cons c d s t,
  compare-flip s t,
  compare_ℕ-flip (code c) (code d),
  then-flip (compare_ℕ (code c) (code d)) (compare s t),
)

not_gt_total : (o : Ordering) → not_gt o ≡ false → not_gt (flip o) ≡ true
not_gt_total Ordering.lt h = cc
not_gt_total Ordering.eq h = cc
not_gt_total Ordering.gt h = refl

pub text_le_total : (s t : String) → text_le s t ≡ false → text_le t s ≡ true
unfolding text_le
text_le_total s t h = ap not_gt (compare-flip s t) ∙ not_gt_total (compare s t) h

-- a text that is not at most another is not that text
pub text_le_ne : (s t : String) → text_le s t ≡ false → (s == t) ≡ false
unfolding text_le
text_le_ne s t h = ground arith

module _ {A : Type 0} (key : A → String) where
  unfoldable pub insert_sorted : A → List A → List A
  insert_sorted x [] = x ∷ []
  insert_sorted x (y ∷ ys) =
      let rest = insert_sorted x ys in if text_le (key x) (key y) then x ∷ y ∷ ys else y ∷ rest

  -- `sorted(xs, key=key)`
  unfoldable pub sorted : List A → List A
  unfolding insert_sorted
  sorted [] = []
  sorted (x ∷ xs) = insert_sorted x (sorted xs)

  -- each key is at most the next
  abbrev pub IsSorted : List A → Type 0
  IsSorted [] = Unit
  IsSorted (x ∷ []) = Unit
  IsSorted (x ∷ y ∷ ys) = (text_le (key x) (key y) ≡ true) × IsSorted (y ∷ ys)

  insert_sorted-IsSorted : (x : A) (ys : List A) → IsSorted ys → IsSorted (insert_sorted x ys)
  unfolding insert_sorted
  insert_sorted-IsSorted x [] h = tt
  insert_sorted-IsSorted x (y ∷ []) h = ground (arith, text_le_total (key x) (key y))
  insert_sorted-IsSorted x (y ∷ z ∷ ys) h = ground (
    arith,
    text_le_total (key x) (key y),
    text_le_total (key x) (key z),
    insert_sorted-IsSorted x (z ∷ ys) h.1,
  )

  pub sorted-IsSorted : (xs : List A) → IsSorted (sorted xs)
  unfolding sorted
  sorted-IsSorted [] = tt
  sorted-IsSorted (x ∷ xs) = insert_sorted-IsSorted x (sorted xs) (sorted-IsSorted xs)

  insert_sorted-perm : (x : A) (ys : List A) → Perm (insert_sorted x ys) (x ∷ ys)
  unfolding insert_sorted
  insert_sorted-perm x [] = Perm.refl (x ∷ [])
  insert_sorted-perm x (y ∷ ys) = elim (Bool-cases (text_le (key x) (key y))) [
    | inl le ↦ rw le (Perm.refl (x ∷ y ∷ ys))
    | inr gt ↦ rw gt (Perm.trans (Perm.cons y (insert_sorted-perm x ys)) (Perm.swap x y ys))
  ]

  pub sorted-perm : (xs : List A) → Perm (sorted xs) xs
  unfolding sorted
  sorted-perm [] = Perm.refl []
  sorted-perm (x ∷ xs) =
      Perm.trans (insert_sorted-perm x (sorted xs)) (Perm.cons x (sorted-perm xs))

  -- the first item with a given key
  abbrev pub find_named : String → List A → Option A
  find_named k xs = find_first (λ x. key x == k) xs

  find_named-insert_sorted :
      (k : String) (x : A) (ys : List A) → find_named k (insert_sorted x ys) ≡ find_named k (x ∷ ys)
  unfolding insert_sorted
  find_named-insert_sorted k x [] = refl
  find_named-insert_sorted k x (y ∷ ys) = ground (
    arith,
    find_named-insert_sorted k x ys,
    text_le_ne (key x) (key y),
    eq_iff (key x) k,
    eq_iff (key y) k,
    eq_iff (key x) (key y),
  )

  -- sorting is stable: the first item with a given key stays the first with it
  pub find_named-sorted : (k : String) (xs : List A) → find_named k (sorted xs) ≡ find_named k xs
  unfolding sorted
  find_named-sorted k [] = refl
  find_named-sorted k (x ∷ xs) =
      ground (arith, find_named-insert_sorted k x (sorted xs), find_named-sorted k xs)

  -- no two items share a key
  abbrev pub IsUnique : List A → Type 0
  IsUnique [] = Unit
  IsUnique (x ∷ xs) = (find_named (key x) xs ≡ none) × IsUnique xs

  insert_sorted-IsUnique :
      (x : A) (ys : List A)
      → find_named (key x) ys ≡ none
      → IsUnique ys
      → IsUnique (insert_sorted x ys)
  unfolding insert_sorted
  insert_sorted-IsUnique x [] e h = (e, tt)
  insert_sorted-IsUnique x (y ∷ ys) e h = ground (
    arith,
    insert_sorted-IsUnique x ys,
    find_named-insert_sorted (key y) x ys,
    eq_iff (key x) (key y),
    eq_iff (key y) (key x),
  )

  pub sorted-IsUnique : (xs : List A) → IsUnique xs → IsUnique (sorted xs)
  unfolding sorted
  sorted-IsUnique [] h = tt
  sorted-IsUnique (x ∷ xs) h =
      insert_sorted-IsUnique x (sorted xs) (find_named-sorted (key x) xs ∙ h.0)
        (sorted-IsUnique xs h.1)
