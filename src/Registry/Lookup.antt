-- ===== src/Registry/Lookup.antt =====
-- What a registration does to the lookups, and what the listings hold.
use mathlib.Core.List.{Perm}
use db_connections.Dict.{contains, get-insert, get-insert_self, insert, values}
use db_connections.Domain.{TypeSpec}
use db_connections.Errors.{connection_type_not_supported}
use db_connections.Prelude.{
  Bool, Bool-cases, Option, String, arith, eq_iff, false, inl, inr, none, not, refl, some, true,
  ◌&&◌, ◌==◌, ◌≡◌, ◌⊎◌,
}
use db_connections.Registry.{
  ConnectionRegistry, get_type, list_types, of_kind, register_type, type_name_of,
}
use db_connections.Result.{Result, err, ok}
use db_connections.Sorting.{IsSorted, sorted-IsSorted, sorted-perm}

-- what `get_type` returns for a dictionary's entry
abbrev found_type : String → Option TypeSpec → Result TypeSpec
found_type name none = err (connection_type_not_supported name)
found_type name (some s) = ok s

-- A registration that succeeds makes its type found by name and leaves every other lookup alone;
-- one that is refused has an unknown kind, or a name that is taken with `overwrite` off.
pub get_type-register_type :
    (spec : TypeSpec) (overwrite : Bool) (r : ConnectionRegistry)
    → ((r' : ConnectionRegistry) × (register_type spec overwrite r ≡ ok r')
        × (get_type spec.name r' ≡ ok spec)
        × ((name : String) → (spec.name ≡ name) ⊎ (get_type name r' ≡ get_type name r))
        × (r'.kinds ≡ r.kinds))
      ⊎ ((contains spec.kind r.kinds ≡ false)
          ⊎ ((contains spec.name r.types ≡ true) × (overwrite ≡ false)))
unfolding register_type get_type
get_type-register_type spec overwrite r = elim (Bool-cases (contains spec.kind r.kinds)) [
  | inr unknown ↦ inr (inl unknown)
  | inl known ↦ elim (Bool-cases (contains spec.name r.types && not overwrite)) [
    | inl taken ↦ inr (inr (ground arith))
    | inr free ↦ inl (
      record r { types = insert spec.name spec r.types },
      rw (known, free),
      ground (arith, get-insert_self spec.name spec r.types),
      λ name. elim (Bool-cases (spec.name == name)) [
        | inl same ↦ inl ((eq_iff spec.name name).0 same)
        | inr other ↦ inr (ground (arith, get-insert spec.name name spec r.types))
      ],
      refl,
    )
  ]
]

-- The listing of types is in the order of their names and holds exactly the registered specs of
-- the kind that is asked for, or all of them.
pub list_types_lem :
    (kind : Option String) (r : ConnectionRegistry)
    → IsSorted type_name_of (list_types kind r)
      × Perm (list_types kind r) (of_kind kind (values r.types))
unfolding list_types
list_types_lem kind r = (
  sorted-IsSorted type_name_of (of_kind kind (values r.types)),
  sorted-perm type_name_of (of_kind kind (values r.types)),
)
