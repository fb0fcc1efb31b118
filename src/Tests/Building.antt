-- ===== src/Tests/Building.antt =====
-- The theorem on building an extension, at a builder with a registry, a kind, a type and a plugin.
use db_connections.Api.Builder.{
  ExtensionBuilder, build_extension, build_registry, build_settings, dsl_settings, fill_registry,
  merge_registry, new_builder, plugin_requests_from_dsl, with_default_types, with_kind,
  with_max_connections, with_plugin_entrypoints, with_type, with_uow_factory,
}
use db_connections.Api.Builder.Building.{IsTame}
use db_connections.Api.Builder.Built.{build_extension_lem}
use db_connections.Api.Builder.Given.{HasKinds, HasTypes}
use db_connections.Exec.{for_each}
use db_connections.Exec.Keeps.{Keeps}
use db_connections.Int.{pos}
use db_connections.Plugins.{
  EntryPoint, entry_points_for_group, load_each, load_plugin_callable, load_registry_plugins,
  run_bootstrap, select_entry_points,
}
use db_connections.Prelude.{List, String, [], arith, false, none, refl, some, subst, ◌++◌, ◌∷◌, ◌≡◌}
use db_connections.Registry.{
  ConnectionRegistry, list_kinds, list_types, register_kind, register_type,
}
use db_connections.Registry.Invariant.{IsWellFormed}
use db_connections.Result.{ok}
use db_connections.Runtime.{DbConnectionRuntime, IsCurrent, new_runtime}
use db_connections.Sorting.{insert_sorted, sorted, text_le}
use db_connections.Tests.Connecting.{builtins}
use db_connections.Tests.Data.{registry}
use db_connections.Tests.Loading.{no_modules, quiet}
use db_connections.Tests.Registering.{http_kind, mysql_type}
use db_connections.Tests.Serving.{table_uow}
use db_connections.Tests.Storage.{Table}

abbrev quiet_only : String → List EntryPoint
quiet_only group = quiet ∷ []

-- the plugin changes nothing
quiet-IsTame : IsTame quiet
quiet-IsTame bootstrap e =
    let same : (λ (r : ConnectionRegistry). (ok tt, r)) ≡ bootstrap = ground arith in
    subst (Keeps IsWellFormed) same (record { at = λ r w. w })

abbrev builder : ExtensionBuilder Table
builder = with_max_connections (some (pos 3)) (
    with_plugin_entrypoints none "db_connection.plugins" (
      with_type mysql_type (
        with_kind http_kind (
          with_default_types false
            (with_uow_factory table_uow (record new_builder { registry = some registry }))))))

abbrev built : DbConnectionRuntime Table
built =
    new_runtime (some (pos 3))
      (record {
        kinds = registry.kinds ++ (("http", http_kind) ∷ []);
        types = registry.types ++ (("mysql", mysql_type) ∷ []);
      })
      table_uow none none

build_extension_example :
    (builder.uow_factory ≡ some table_uow)
    × (built.max_connections ≡ some (pos 3))
    × IsCurrent built
    × IsWellFormed built.registry
    × HasKinds (http_kind ∷ []) built.registry
    × HasTypes (mysql_type ∷ []) built.registry
unfolding build_extension build_registry fill_registry merge_registry for_each load_registry_plugins
    load_each run_bootstrap select_entry_points entry_points_for_group load_plugin_callable
    register_kind register_type sorted insert_sorted text_le new_runtime build_settings dsl_settings
    plugin_requests_from_dsl list_kinds list_types
build_extension_example =
    build_extension_lem builtins no_modules quiet_only (λ group. (quiet-IsTame, tt)) Table builder
      built refl
