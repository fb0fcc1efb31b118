-- ===== src/Registry.antt =====
-- registry/base.py: the registry of connection kinds and types.
pub mod Invariant
pub mod Lookup
pub mod Copy
pub mod Defaults
use db_connections.Dict.{Dict, contains, get, insert, values}
use db_connections.Domain.{KindSpec, ModelClass, TypeSpec, post_init}
use db_connections.Errors.{connection_type_not_supported, validation_failed}
use db_connections.Prelude.{
  Bool, List, Option, String, [], false, if◌then◌else◌, keep_if, none, not, quote, some, ◌&&◌, ◌==◌,
  ◌∷◌,
}
use db_connections.Result.{Result, err, ok, ◌>>=◌, ◌>>◌}
use db_connections.Sorting.{sorted}

pub record ConnectionRegistry : Type 0 where
  pub kinds : Dict KindSpec
  pub types : Dict TypeSpec

-- `ConnectionRegistry()`
abbrev pub empty_registry : ConnectionRegistry
empty_registry = record { kinds = []; types = [] }

unfoldable pub register_kind : KindSpec → Bool → ConnectionRegistry → Result ConnectionRegistry
register_kind spec overwrite r =
    if contains spec.name r.kinds && not overwrite
    then err (validation_failed (quote "Kind '" spec.name "' is already registered.") [])
    else ok (record r { kinds = insert spec.name spec r.kinds })

unfoldable pub register_type : TypeSpec → Bool → ConnectionRegistry → Result ConnectionRegistry
register_type spec overwrite r =
    if not (contains spec.kind r.kinds)
    then err (
        validation_failed (quote (quote "Unknown kind '" spec.kind "' for type '") spec.name "'.")
          [])
    else if contains spec.name r.types && not overwrite
    then err (validation_failed (quote "Type '" spec.name "' is already registered.") [])
    else ok (record r { types = insert spec.name spec r.types })

unfoldable pub get_kind : String → ConnectionRegistry → Result KindSpec
get_kind name r = elim (get name r.kinds) [
  | none ↦ err (validation_failed (quote "Unknown kind '" name "'.") [])
  | some spec ↦ ok spec
]

unfoldable pub get_type : String → ConnectionRegistry → Result TypeSpec
get_type name r = elim (get name r.types) [
  | none ↦ err (connection_type_not_supported name)
  | some spec ↦ ok spec
]

abbrev pub kind_name : KindSpec → String
kind_name s = s.name

abbrev pub type_name_of : TypeSpec → String
type_name_of s = s.name

unfoldable pub list_kinds : ConnectionRegistry → List KindSpec
list_kinds r = sorted kind_name (values r.kinds)

-- the specs of a kind, or all
abbrev pub of_kind : Option String → List TypeSpec → List TypeSpec
of_kind none specs = specs
of_kind (some k) specs = keep_if (λ (s : TypeSpec). s.kind == k) specs

unfoldable pub list_types : Option String → ConnectionRegistry → List TypeSpec
list_types kind r = sorted type_name_of (of_kind kind (values r.types))

-- `for kind_spec in specs: registry.register_kind(kind_spec)`
pub register_kinds : List KindSpec → ConnectionRegistry → Result ConnectionRegistry
register_kinds [] r = ok r
register_kinds (s ∷ ss) r = register_kind s false r >>= register_kinds ss

module _ (no_driver_options : ModelClass) where
  -- `registry.register_type(TypeSpec(...))` for each: building a `TypeSpec` runs `__post_init__`
  pub register_types : List TypeSpec → ConnectionRegistry → Result ConnectionRegistry
  register_types [] r = ok r
  register_types (s ∷ ss) r = do
    s' ← post_init no_driver_options s
    r' ← register_type s' false r
    register_types ss r'

  pub copy : ConnectionRegistry → Result ConnectionRegistry
  copy r = do
    r' ← register_kinds (list_kinds r) empty_registry
    register_types (list_types none r) r'
