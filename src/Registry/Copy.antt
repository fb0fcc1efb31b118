-- ===== src/Registry/Copy.antt =====
-- `ConnectionRegistry.copy` succeeds on a well-formed registry and answers every lookup alike.
use db_connections.Dict.{Dict, get, insert, values}
use db_connections.Dict.Keyed.{
  All, All-map, All-sorted, IsFresh, IsFresh-empty, IsFresh-insert, IsKeyed, get-find_named,
  get-insert_all, insert_all, insert_all-IsKeyed, or_get, values-IsUnique, values-insert_all-All,
}
use db_connections.Domain.{KindSpec, ModelClass, TypeSpec, post_init}
use db_connections.Prelude.{List, Option, String, [], none, refl, some, sym, ◌∙◌, ◌∷◌, ◌≡◌}
use db_connections.Registry.{
  ConnectionRegistry, copy, empty_registry, get_kind, get_type, kind_name, list_kinds, list_types,
  register_kind, register_kinds, register_type, register_types, type_name_of,
}
use db_connections.Registry.Invariant.{HasKind, IsWellFormed}
use db_connections.Result.{ok}
use db_connections.Sorting.{IsUnique, find_named, find_named-sorted, sorted, sorted-IsUnique}

register_kinds_lem :
    (ss : List KindSpec) (r : ConnectionRegistry)
    → IsUnique kind_name ss
    → IsFresh kind_name ss r.kinds
    → register_kinds ss r ≡ ok (record r { kinds = insert_all kind_name ss r.kinds })
unfolding register_kinds register_kind
register_kinds_lem [] r u f = refl
register_kinds_lem (s ∷ ss) r u f = rw (f.0) (
    register_kinds_lem ss (record r { kinds = insert s.name s r.kinds }) u.1
      (IsFresh-insert kind_name s ss r.kinds u.0 f.1))

-- a spec that building it anew leaves as it is
abbrev pub IsNormal : ModelClass → TypeSpec → Type 0
IsNormal c s = post_init c s ≡ ok s

module _ (c : ModelClass) where
  register_types_lem :
      (ss : List TypeSpec) (r : ConnectionRegistry)
      → IsUnique type_name_of ss
      → IsFresh type_name_of ss r.types
      → All (HasKind r) ss
      → All (IsNormal c) ss
      → register_types c ss r ≡ ok (record r { types = insert_all type_name_of ss r.types })
  unfolding register_types register_type
  register_types_lem [] r u f k n = refl
  register_types_lem (s ∷ ss) r u f k n =
      rw (n.0, k.0, f.0)
        (register_types_lem ss (record r { types = insert s.name s r.types }) u.1
          (IsFresh-insert type_name_of s ss r.types u.0 f.1) k.1 n.1)

or_get-none : {V : Type 0} (o : Option V) → or_get o none ≡ o
or_get-none none = refl
or_get-none (some v) = refl

-- filling an empty dictionary with the sorted values keeps every lookup
get-refilled :
    {V : Type 0} (key : V → String) (k : String) (d : Dict V)
    → IsKeyed key d
    → get k (insert_all key (sorted key (values d)) []) ≡ get k d
get-refilled key k d h =
    get-insert_all key k (sorted key (values d)) []
      (sorted-IsUnique key (values d) (values-IsUnique key d h))
    ∙ or_get-none (find_named key k (sorted key (values d)))
    ∙ find_named-sorted key k (values d)
    ∙ sym (get-find_named key k d h)

-- the registry that `copy` builds
abbrev copied : ConnectionRegistry → ConnectionRegistry
copied r = record {
  kinds = insert_all kind_name (sorted kind_name (values r.kinds)) [];
  types = insert_all type_name_of (sorted type_name_of (values r.types)) [];
}

module _ (c : ModelClass) (r : ConnectionRegistry) (w : IsWellFormed r) where
  HasKind-copied : (s : TypeSpec) → HasKind r s → HasKind (copied r) s
  HasKind-copied s h = rw (get-refilled kind_name s.kind r.kinds w.kinds_keyed) h

  kinds_known_sorted : All (HasKind (copied r)) (sorted type_name_of (values r.types))
  kinds_known_sorted =
      All-map (HasKind r) (HasKind (copied r)) HasKind-copied (sorted type_name_of (values r.types))
        (All-sorted (HasKind r) type_name_of (values r.types) w.kinds_known)

  copied-IsWellFormed : IsWellFormed (copied r)
  copied-IsWellFormed = record {
    kinds_keyed = insert_all-IsKeyed kind_name (sorted kind_name (values r.kinds)) [] tt;
    types_keyed = insert_all-IsKeyed type_name_of (sorted type_name_of (values r.types)) [] tt;
    kinds_known =
        values-insert_all-All (HasKind (copied r)) type_name_of
          (sorted type_name_of (values r.types)) [] kinds_known_sorted tt;
  }

  copy-eq-copied : All (IsNormal c) (values r.types) → copy c r ≡ ok (copied r)
  unfolding copy list_kinds list_types
  copy-eq-copied n =
      rw
        (register_kinds_lem (sorted kind_name (values r.kinds)) empty_registry
          (sorted-IsUnique kind_name (values r.kinds)
            (values-IsUnique kind_name r.kinds w.kinds_keyed))
          (IsFresh-empty kind_name (sorted kind_name (values r.kinds))))
        (register_types_lem c (sorted type_name_of (values r.types))
          (record { kinds = (copied r).kinds; types = [] })
          (sorted-IsUnique type_name_of (values r.types)
            (values-IsUnique type_name_of r.types w.types_keyed))
          (IsFresh-empty type_name_of (sorted type_name_of (values r.types))) kinds_known_sorted
          (All-sorted (IsNormal c) type_name_of (values r.types) n))

-- Copying a well-formed registry whose specs are normalised succeeds, and the copy is well formed
-- and answers every lookup of a kind or a type as the original does.
pub copy_lem :
    (c : ModelClass) (r : ConnectionRegistry)
    → IsWellFormed r
    → All (IsNormal c) (values r.types)
    → (r' : ConnectionRegistry) × (copy c r ≡ ok r')
      × IsWellFormed r'
      × ((name : String) → get_kind name r' ≡ get_kind name r)
      × ((name : String) → get_type name r' ≡ get_type name r)
unfolding get_kind get_type
copy_lem c r w n = (
  copied r,
  copy-eq-copied c r w n,
  copied-IsWellFormed c r w,
  λ name. rw (get-refilled kind_name name r.kinds w.kinds_keyed, get_kind),
  λ name. rw (get-refilled type_name_of name r.types w.types_keyed, get_type),
)
