-- ===== src/Dict.antt =====
-- Python's `dict` with text keys, as its items in insertion order.
pub mod Keyed
use db_connections.Prelude.{
  Bool, List, Option, String, [], ap, arith, eq_iff, eq_refl, if◌then◌else◌, is_some, none, refl,
  some, ◌==◌, ◌∙◌, ◌∷◌, ◌≡◌,
}

abbrev pub Dict {ℓ} : Type ℓ → Type ℓ
Dict V = List (String × V)

module _ {ℓ} {V : Type ℓ} where
  -- `d.get(k)`
  abbrev pub get : String → Dict V → Option V
  get k [] = none
  get k ((j, v) ∷ d) = if j == k then some v else get k d

  -- `k in d`
  abbrev pub contains : String → Dict V → Bool
  contains k d = is_some (get k d)

  -- `d[k] = v`: a key that is there keeps its place
  abbrev pub insert : String → V → Dict V → Dict V
  insert k v [] = (k, v) ∷ []
  insert k v ((j, w) ∷ d) = if j == k then (j, v) ∷ d else (j, w) ∷ insert k v d

  -- `d.pop(k, None)`, without its result
  abbrev pub erase : String → Dict V → Dict V
  erase k [] = []
  erase k ((j, w) ∷ d) = let rest = erase k d in if j == k then rest else (j, w) ∷ rest

  -- `d.update(e)`
  abbrev pub update : Dict V → Dict V → Dict V
  update d [] = d
  update d ((k, v) ∷ e) = update (insert k v d) e

  abbrev pub keys : Dict V → List String
  keys [] = []
  keys ((k, v) ∷ d) = k ∷ keys d

  abbrev pub values : Dict V → List V
  values [] = []
  values ((k, v) ∷ d) = v ∷ values d

module _ {ℓ} {V : Type ℓ} where
  pub get-insert :
      (k j : String) (v : V) (d : Dict V)
      → get j (insert k v d) ≡ (if k == j then some v else get j d)
  get-insert k j v [] = refl
  get-insert k j v ((i, w) ∷ d) =
      ground (arith, eq_iff i k, eq_iff i j, eq_iff k j, get-insert k j v d)

  pub get-insert_self : (k : String) (v : V) (d : Dict V) → get k (insert k v d) ≡ some v
  get-insert_self k v d = ground (arith, get-insert k k v d, eq_refl k)

  pub get-erase :
      (k j : String) (d : Dict V) → get j (erase k d) ≡ (if k == j then none else get j d)
  get-erase k j [] = ground arith
  get-erase k j ((i, w) ∷ d) = ground (arith, eq_iff i k, eq_iff i j, eq_iff k j, get-erase k j d)

  -- a later item wins
  abbrev pub get_last : String → Dict V → Option V → Option V
  get_last k [] o = o
  get_last k ((j, v) ∷ d) o = get_last k d (if j == k then some v else o)

  pub get-update : (k : String) (d e : Dict V) → get k (update d e) ≡ get_last k e (get k d)
  get-update k d [] = refl
  get-update k d ((j, v) ∷ e) =
      get-update k (insert j v d) e ∙ ap (get_last k e) (get-insert j k v d)

pub ruleset dict_laws = (get-insert, get-insert_self, get-erase)
