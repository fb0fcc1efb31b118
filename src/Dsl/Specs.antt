-- ===== src/Dsl/Specs.antt =====
-- dsl/loader.py: the specs that the entries of a configuration stand for.
use db_connections.Domain.{
  DriverSpec, KindSpec, ModelClass, TypeSpec, add_driver, driver_spec, post_init, to_set,
}
use db_connections.Dsl.Config.{DslDriverSpec, DslKindSpec, DslTypeSpec}
use db_connections.Dsl.References.{
  Importer, resolve_model_class, resolve_optional_callable, resolve_optional_model_class,
}
use db_connections.Prelude.{List, [], if◌then◌else◌, is_nonempty, map, none, some, ◌∷◌}
use db_connections.Result.{Result, ok, ◌>>=◌}
use db_connections.Sorting.{sorted}

module _ (importer : Importer) (no_driver_options : ModelClass) where
  -- one `DriverSpec` of `_build_driver_specs`
  unfoldable pub build_driver_spec : DslDriverSpec → Result DriverSpec
  build_driver_spec d = do
    options_model ← (elim d.options_model [
      | none ↦ ok no_driver_options
      | some reference ↦ resolve_model_class importer reference
    ])
    public_options_model ← resolve_optional_model_class importer d.public_options_model
    ok (driver_spec d.name options_model public_options_model (to_set d.tags))

  unfoldable pub build_declared_specs : List DslDriverSpec → Result (List DriverSpec)
  build_declared_specs [] = ok []
  build_declared_specs (d ∷ ds) = do
    spec ← build_driver_spec d
    specs ← build_declared_specs ds
    ok (spec ∷ specs)

  -- `_build_driver_specs`
  unfoldable pub build_driver_specs : DslTypeSpec → Result (List DriverSpec)
  build_driver_specs t =
      if is_nonempty t.driver_specs
      then build_declared_specs t.driver_specs
      else ok (
          map (λ name. driver_spec name no_driver_options none [])
            (sorted (λ s. s) (add_driver t.default_driver (to_set t.supported_drivers))))

  -- the `TypeSpec` of one entry, its arguments evaluated in order
  unfoldable pub build_type_spec : DslTypeSpec → Result TypeSpec
  build_type_spec t = do
    properties_model ← resolve_model_class importer t.properties_model
    secrets_model ← resolve_optional_model_class importer t.secrets_model
    public_model ← resolve_optional_model_class importer t.public_model
    connector_factory ← resolve_optional_callable importer t.connector_factory
    driver_specs ← build_driver_specs t
    post_init no_driver_options (record {
      name = t.name;
      kind = t.kind;
      properties_model = properties_model;
      secrets_model = secrets_model;
      public_model = public_model;
      connector_factory = connector_factory;
      default_driver = t.default_driver;
      driver_specs = driver_specs;
      supported_drivers = to_set t.supported_drivers;
      capabilities = to_set t.capabilities;
      tags = to_set t.tags;
    })

-- `KindSpec(...)`
abbrev pub build_kind_spec : DslKindSpec → KindSpec
build_kind_spec k = record {
  name = k.name;
  description = k.description;
  capabilities = to_set k.capabilities;
}
