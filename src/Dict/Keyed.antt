-- ===== src/Dict/Keyed.antt =====
-- Dictionaries whose values carry their own keys, as the registry's do, and the loops that fill
-- them from a list.
use db_connections.Dict.{Dict, get, get-insert, insert, values}
use db_connections.Prelude.{
  Bool-cases, List, Option, String, [], arith, eq_iff, inl, inr, none, refl, some, ◌==◌, ◌∷◌, ◌≡◌,
}
use db_connections.Sorting.{IsUnique, find_named, insert_sorted, sorted, text_le}

abbrev pub or_get : {V : Type 0} → Option V → Option V → Option V
or_get none o = o
or_get (some v) o = some v

module _ {V : Type 0} (key : V → String) where
  -- every value stands under its own name, once
  abbrev pub IsKeyed : Dict V → Type 0
  IsKeyed [] = Unit
  IsKeyed ((k, v) ∷ d) = (key v ≡ k) × (get k d ≡ none) × IsKeyed d

  pub insert-IsKeyed : (v : V) (d : Dict V) → IsKeyed d → IsKeyed (insert (key v) v d)
  insert-IsKeyed v [] h = (refl, refl, tt)
  insert-IsKeyed v ((k, w) ∷ d) h =
      ground (
        arith,
        insert-IsKeyed v d h.2,
        get-insert (key v) k v d,
        eq_iff k (key v),
        eq_iff (key v) k,
      )

  -- looking up by key is searching the values by name
  pub get-find_named : (k : String) (d : Dict V) → IsKeyed d → get k d ≡ find_named key k (values d)
  get-find_named k [] h = refl
  get-find_named k ((j, v) ∷ d) h = ground (arith, get-find_named k d h.2)

  pub values-IsUnique : (d : Dict V) → IsKeyed d → IsUnique key (values d)
  values-IsUnique [] h = tt
  values-IsUnique ((k, v) ∷ d) h =
      ground (arith, values-IsUnique d h.2, get-find_named (key v) d h.2)

  -- `for x in xs: d[x.name] = x`
  abbrev pub insert_all : List V → Dict V → Dict V
  insert_all [] d = d
  insert_all (x ∷ xs) d = insert_all xs (insert (key x) x d)

  pub insert_all-IsKeyed : (xs : List V) (d : Dict V) → IsKeyed d → IsKeyed (insert_all xs d)
  insert_all-IsKeyed [] d h = h
  insert_all-IsKeyed (x ∷ xs) d h =
      insert_all-IsKeyed xs (insert (key x) x d) (insert-IsKeyed x d h)

  pub get-insert_all :
      (k : String) (xs : List V) (d : Dict V)
      → IsUnique key xs
      → get k (insert_all xs d) ≡ or_get (find_named key k xs) (get k d)
  get-insert_all k [] d h = refl
  get-insert_all k (x ∷ xs) d h = ground (
    arith,
    get-insert_all k xs (insert (key x) x d) h.1,
    get-insert (key x) k x d,
    eq_iff (key x) k,
  )

  -- no listed value's name is taken
  abbrev pub IsFresh : List V → Dict V → Type 0
  IsFresh [] d = Unit
  IsFresh (x ∷ xs) d = (get (key x) d ≡ none) × IsFresh xs d

  pub IsFresh-empty : (xs : List V) → IsFresh xs []
  IsFresh-empty [] = tt
  IsFresh-empty (x ∷ xs) = (refl, IsFresh-empty xs)

  -- storing one value keeps the others fresh, if their names differ
  pub IsFresh-insert :
      (x : V) (xs : List V) (d : Dict V)
      → find_named key (key x) xs ≡ none
      → IsFresh xs d
      → IsFresh xs (insert (key x) x d)
  IsFresh-insert x [] d e h = tt
  IsFresh-insert x (y ∷ ys) d e h = ground (
    arith,
    IsFresh-insert x ys d,
    get-insert (key x) (key y) x d,
    eq_iff (key x) (key y),
    eq_iff (key y) (key x),
  )

module _ {V : Type 0} (P : V → Type 0) where
  abbrev pub All : List V → Type 0
  All [] = Unit
  All (x ∷ xs) = P x × All xs

  All-insert_sorted :
      (key : V → String) (x : V) (ys : List V) → P x → All ys → All (insert_sorted key x ys)
  unfolding insert_sorted
  All-insert_sorted key x [] p h = (p, tt)
  All-insert_sorted key x (y ∷ ys) p h = elim (Bool-cases (text_le (key x) (key y))) [
    | inl le ↦ rw le (p, h)
    | inr gt ↦ rw gt (h.0, All-insert_sorted key x ys p h.1)
  ]

  pub All-sorted : (key : V → String) (xs : List V) → All xs → All (sorted key xs)
  unfolding sorted
  All-sorted key [] h = tt
  All-sorted key (x ∷ xs) h = All-insert_sorted key x (sorted key xs) h.0 (All-sorted key xs h.1)

  pub values-insert-All :
      (k : String) (v : V) (d : Dict V) → P v → All (values d) → All (values (insert k v d))
  values-insert-All k v [] p h = (p, tt)
  values-insert-All k v ((j, u) ∷ d) p h = elim (Bool-cases (j == k)) [
    | inl same ↦ rw same (p, h.1)
    | inr other ↦ rw other (h.0, values-insert-All k v d p h.1)
  ]

  pub values-insert_all-All :
      (key : V → String) (xs : List V) (d : Dict V)
      → All xs
      → All (values d)
      → All (values (insert_all key xs d))
  values-insert_all-All key [] d p h = h
  values-insert_all-All key (x ∷ xs) d p h =
      values-insert_all-All key xs (insert (key x) x d) p.1 (values-insert-All (key x) x d p.0 h)

pub All-map :
    {V : Type 0} (P Q : V → Type 0) → ((x : V) → P x → Q x) → (xs : List V) → All P xs → All Q xs
All-map P Q f [] h = tt
All-map P Q f (x ∷ xs) h = (f x h.0, All-map P Q f xs h.1)
