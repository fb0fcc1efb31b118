-- ===== src/Api/Builder.antt =====
-- fastapi/builder.py, and the runtime that fastapi/extension.py makes of a builder: an Exec on the
-- registry that is filled. What is only passed on (the mappers, schemas, dependencies and the
-- encryption provider) is left out; the entry points, the importer and the built-in models are given.
pub mod Building
pub mod Given
pub mod Built
use db_connections.Domain.{KindSpec, ModelClass, TypeSpec}
use db_connections.Dsl.Applying.{apply_dsl_registry, in_place}
use db_connections.Dsl.Config.{DbConnectionDslConfig, DslPluginConfig, apply_dsl_settings}
use db_connections.Dsl.Loading.{DslLibrary, load_dsl_file}
use db_connections.Dsl.References.{Importer}
use db_connections.Errors.{validation_failed}
use db_connections.Exec.{Exec, for_each, pure, ◌>>=◌}
use db_connections.Int.{ℤ}
use db_connections.Plugins.{EntryPoint, load_registry_plugins}
use db_connections.Prelude.{
  Bool, List, Option, String, [], false, get_or, if◌then◌else◌, map, none, some, true, ◌++◌, ◌∷◌,
}
use db_connections.Registry.{
  ConnectionRegistry, copy, empty_registry, list_kinds, list_types, register_kind, register_type,
}
use db_connections.Registry.Defaults.{Builtins, build_default_registry}
use db_connections.Result.{Result, err, ok}
use db_connections.Runtime.{DbConnectionRuntime, new_runtime}
use db_connections.Service.{AccessPolicy, OwnershipResolver, UnitOfWork}
use db_connections.Tests.Connecting.{builtins}
use db_connections.Value.{Value}

-- `PluginEntryPointRequest`
pub record PluginEntryPointRequest : Type 0 where
  pub group : String
  pub names : Option (List String)

-- `DBConnectionExtensionBuilder`
pub record ExtensionBuilder (S : Type 0) : Type 0 where
  pub uow_factory : Option (UnitOfWork S)
  pub settings : Option (Option ℤ)
  pub max_connections : Option ℤ
  pub max_connections_set : Bool
  pub registry : Option ConnectionRegistry
  pub use_default_types : Bool
  pub kinds : List KindSpec
  pub types : List TypeSpec
  pub access_policy : Option AccessPolicy
  pub ownership_resolver : Option OwnershipResolver
  pub dsl_configs : List DbConnectionDslConfig
  pub plugin_requests : List PluginEntryPointRequest

-- what `with_dsl_data` is given: a configuration, or data to be validated
pub data DslData : Type 0 where
  dsl_config : DbConnectionDslConfig → DslData
  dsl_mapping : Value → DslData

module _ {S : Type 0} where
  -- `__init__`
  abbrev pub new_builder : ExtensionBuilder S
  new_builder = record {
    uow_factory = none;
    settings = none;
    max_connections = none;
    max_connections_set = false;
    registry = none;
    use_default_types = true;
    kinds = [];
    types = [];
    access_policy = none;
    ownership_resolver = none;
    dsl_configs = [];
    plugin_requests = [];
  }

  abbrev pub with_uow_factory : UnitOfWork S → ExtensionBuilder S → ExtensionBuilder S
  with_uow_factory u b = record b { uow_factory = some u }

  abbrev pub with_settings : Option ℤ → ExtensionBuilder S → ExtensionBuilder S
  with_settings n b = record b { settings = some n }

  abbrev pub with_max_connections : Option ℤ → ExtensionBuilder S → ExtensionBuilder S
  with_max_connections n b = record b { max_connections = n; max_connections_set = true }

  -- `with_registry`: copying the registry may raise
  abbrev pub with_registry :
      ModelClass → ConnectionRegistry → ExtensionBuilder S → Result (ExtensionBuilder S)
  with_registry no_driver_options r b = elim (copy no_driver_options r) [
    | err e ↦ err e
    | ok r' ↦ ok (record b { registry = some r' })
  ]

  abbrev pub with_default_types : Bool → ExtensionBuilder S → ExtensionBuilder S
  with_default_types enabled b = record b { use_default_types = enabled }

  abbrev pub with_kind : KindSpec → ExtensionBuilder S → ExtensionBuilder S
  with_kind spec b = record b { kinds = b.kinds ++ (spec ∷ []) }

  abbrev pub with_type : TypeSpec → ExtensionBuilder S → ExtensionBuilder S
  with_type spec b = record b { types = b.types ++ (spec ∷ []) }

  abbrev pub with_access_policy : AccessPolicy → ExtensionBuilder S → ExtensionBuilder S
  with_access_policy p b = record b { access_policy = some p }

  abbrev pub with_ownership_resolver : OwnershipResolver → ExtensionBuilder S → ExtensionBuilder S
  with_ownership_resolver o b = record b { ownership_resolver = some o }

  abbrev pub with_plugin_entrypoints :
      Option (List String) → String → ExtensionBuilder S → ExtensionBuilder S
  with_plugin_entrypoints names group b = record b {
    plugin_requests = b.plugin_requests ++ (record { group = group; names = names } ∷ []);
  }

  abbrev add_config :
      Result DbConnectionDslConfig → ExtensionBuilder S → Result (ExtensionBuilder S)
  add_config (err e) b = err e
  add_config (ok config) b = ok (record b { dsl_configs = b.dsl_configs ++ (config ∷ []) })

  module _ (parsers : DslLibrary) where
    unfoldable pub with_dsl_data : DslData → ExtensionBuilder S → Result (ExtensionBuilder S)
    with_dsl_data (dsl_config config) b = add_config (ok config) b
    with_dsl_data (dsl_mapping v) b = add_config (parsers.model_validate v) b

    unfoldable pub with_dsl_file : String → ExtensionBuilder S → Result (ExtensionBuilder S)
    with_dsl_file path b = add_config (load_dsl_file parsers path) b

-- the loop of `_build_settings`
unfoldable pub dsl_settings : List DbConnectionDslConfig → Option ℤ → Option ℤ
dsl_settings [] n = n
dsl_settings (config ∷ configs) n = dsl_settings configs (apply_dsl_settings n config)

-- `_build_settings`
unfoldable pub build_settings : {S : Type 0} → ExtensionBuilder S → Option ℤ
build_settings b =
    if b.max_connections_set
    then b.max_connections
    else get_or b.settings (dsl_settings b.dsl_configs none)

abbrev request_of : DslPluginConfig → PluginEntryPointRequest
request_of plugin = record { group = plugin.group; names = some (plugin.name ∷ []) }

-- `_plugin_requests_from_dsl`
unfoldable pub plugin_requests_from_dsl : List DbConnectionDslConfig → List PluginEntryPointRequest
plugin_requests_from_dsl [] = []
plugin_requests_from_dsl (config ∷ configs) =
    map request_of config.plugins ++ plugin_requests_from_dsl configs

-- `_merge_registry`
unfoldable pub merge_registry : ConnectionRegistry → Exec ConnectionRegistry (Unit {0})
merge_registry source =
    for_each (list_kinds source) (λ kind. in_place (register_kind kind true)) >>= λ u.
    for_each (list_types none source) (λ type. in_place (register_type type true))

abbrev pub merge_given : Option ConnectionRegistry → Exec ConnectionRegistry (Unit {0})
merge_given none = pure tt
merge_given (some source) = merge_registry source

-- a round of the loops over requests
abbrev pub load_request :
    (String → List EntryPoint) → PluginEntryPointRequest → Exec ConnectionRegistry (Unit {0})
load_request discovered request =
    load_registry_plugins discovered request.group request.names >>= λ loaded. pure tt

-- the first line of `_build_registry`
abbrev pub first_registry : Builtins → Bool → Result ConnectionRegistry
first_registry builtins use_default_types =
    if use_default_types then build_default_registry builtins else ok empty_registry

abbrev pub filled : Result (Unit {0}) × ConnectionRegistry → Result ConnectionRegistry
filled run = elim run.0 [ ok u ↦ ok run.1 | err e ↦ err e ]

module _ (builtins : Builtins) (importer : Importer) (discovered : String → List EntryPoint) where
  -- `_build_registry` after its first line
  unfoldable pub fill_registry :
      {S : Type 0} → ExtensionBuilder S → Exec ConnectionRegistry (Unit {0})
  fill_registry b = merge_given b.registry >>= λ u1.
      for_each b.dsl_configs (apply_dsl_registry importer builtins.no_driver_options) >>= λ u2.
      for_each (plugin_requests_from_dsl b.dsl_configs) (load_request discovered) >>= λ u3.
      for_each b.plugin_requests (load_request discovered) >>= λ u4.
      for_each b.kinds (λ kind. in_place (register_kind kind false)) >>= λ u5.
      for_each b.types (λ type. in_place (register_type type false))

  -- `_build_registry`
  unfoldable pub build_registry : {S : Type 0} → ExtensionBuilder S → Result ConnectionRegistry
  build_registry b = elim (first_registry builtins b.use_default_types) [
    | err e ↦ err e
    | ok r ↦ filled (fill_registry b r)
  ]

  -- `build`: the runtime of the extension
  unfoldable pub build_extension :
      {S : Type 0} → ExtensionBuilder S → Result (DbConnectionRuntime S)
  build_extension b = elim b.uow_factory [
    | none ↦
        err
          (validation_failed "Unit of work factory is required to build DBConnectionExtension." [])
    | some uow_factory ↦
        let settings = build_settings b in
        elim (build_registry b) [
          | err e ↦ err e
          | ok registry ↦
              ok (new_runtime settings registry uow_factory b.access_policy b.ownership_resolver)
        ]
  ]
