-- ===== src/Domain/Specs.antt =====
-- Driver and type specifications (domain/drivers.py, domain/specs.py).
use Prim.Native.String.{◌++◌ as text_append}
use db_connections.Domain.Entities.{ConnectionCheckResult, ModelClass, ValidatedConnection}
use db_connections.Errors.{Error, other_error}
use db_connections.Prelude.{
  Bool, List, Option, String, [], elem, get_or, if◌then◌else◌, is_nonempty, map, none, some, true,
  ℕ, ◌++◌, ◌∷◌,
}
use db_connections.Result.{Result, err, ok}
use db_connections.Sorting.{sorted}

-- the qualified name of `class NoDriverOptions`
abbrev pub no_driver_options_ref : String
no_driver_options_ref = "db_connection.domain.drivers:NoDriverOptions"

-- the qualified name of `class ODBCDriverOptions`
abbrev pub odbc_driver_options_ref : String
odbc_driver_options_ref = "db_connection.domain.drivers:ODBCDriverOptions"

-- `DriverSpec` after its `__post_init__`, which fills `public_options_model`
pub record DriverSpec : Type 0 where
  pub name : String
  pub options_model : ModelClass
  pub public_options_model : ModelClass
  pub tags : List String

unfoldable pub driver_spec : String → ModelClass → Option ModelClass → List String → DriverSpec
driver_spec name options_model public_options_model tags = record {
  name = name;
  options_model = options_model;
  public_options_model = get_or public_options_model options_model;
  tags = tags;
}

pub record KindSpec : Type 0 where
  pub name : String
  pub description : String
  pub capabilities : List String

-- clients are opaque handles
abbrev pub Client : Type 0
Client = ℕ

-- an instance of a `Connector` subclass
pub record Connector : Type 0 where
  pub check : ValidatedConnection → Result ConnectionCheckResult
  pub get_client : ValidatedConnection → Result Client

pub record TypeSpec : Type 0 where
  pub name : String
  pub kind : String
  pub properties_model : ModelClass
  pub secrets_model : Option ModelClass
  pub public_model : Option ModelClass
  pub connector_factory : Option Connector
  pub default_driver : Option String
  pub driver_specs : List DriverSpec
  pub supported_drivers : List String
  pub capabilities : List String
  pub tags : List String

-- `set.add`
abbrev pub add : String → List String → List String
add s xs = if elem s xs then xs else xs ++ s ∷ []

abbrev pub add_driver : Option String → List String → List String
add_driver none xs = xs
add_driver (some d) xs = add d xs

-- `set(xs)`
abbrev pub to_set : List String → List String
to_set [] = []
to_set (x ∷ xs) = add x (to_set xs)

-- whether a `default_driver` is among the supported ones, or absent
abbrev declared : Option String → List String → Bool
declared none xs = true
declared (some d) xs = elem d xs

not_declared : TypeSpec → Error
not_declared spec = other_error "ValueError" (
    text_append "Default driver '" (
      text_append (get_or spec.default_driver "")
        (text_append "' is not declared for type '" (text_append spec.name "'."))))

module _ (no_driver_options : ModelClass) where
  -- the driver specs that `supported_drivers` and `default_driver` stand for
  unfoldable pub legacy_specs : Option String → List String → List DriverSpec
  legacy_specs default_driver supported_drivers =
      map (λ name. driver_spec name no_driver_options none [])
        (sorted (λ s. s) (add_driver default_driver supported_drivers))

  -- `TypeSpec.__post_init__`
  unfoldable pub post_init : TypeSpec → Result TypeSpec
  unfolding legacy_specs not_declared
  post_init spec =
      let specs =
        if is_nonempty spec.driver_specs
        then spec.driver_specs
        else legacy_specs spec.default_driver spec.supported_drivers in
      let supported = to_set (map (λ d. d.name) specs) in
      if declared spec.default_driver supported
      then ok (record spec { driver_specs = specs; supported_drivers = supported })
      else err (not_declared spec)
