-- ===== src/Tests/Loading.antt =====
-- The theorems on configurations and plugins at concrete ones.
use db_connections.Dsl.Applying.{apply_dsl_registry}
use db_connections.Dsl.Completeness.{apply_dsl_registry_lem, has_kinds, has_types}
use db_connections.Dsl.Config.{DbConnectionDslConfig}
use db_connections.Dsl.Invariant.{Extends, apply_dsl_registry-IsWellFormed}
use db_connections.Dsl.References.{Importer}
use db_connections.Errors.{other_error}
use db_connections.Plugins.{EntryPoint, load_registry_plugins, name_of, select_entry_points}
use db_connections.Plugins.Loading.{Ran, is_handled, load_registry_plugins_lem}
use db_connections.Prelude.{List, String, [], map, none, some, true, ◌&&◌, ◌||◌, ◌∷◌, ◌≡◌, ◌⊎◌}
use db_connections.Registry.{empty_registry}
use db_connections.Registry.Invariant.{IsWellFormed, empty_registry-IsWellFormed}
use db_connections.Result.{err, is_err, ok}
use db_connections.Tests.Data.{pg_options, registry}

-- a plugin that raises, and one that returns
abbrev failing : EntryPoint
failing = record {
  name = "audit";
  group = "db_connection.plugins";
  load = ok (some (λ r. (err (other_error "ValueError" "no"), r)));
}

abbrev pub quiet : EntryPoint
quiet = record failing { name = "base"; load = ok (some (λ r. (ok tt, r))) }

abbrev installed : String → List EntryPoint
installed group = quiet ∷ failing ∷ []

load_registry_plugins_example :
    let run = load_registry_plugins installed "db_connection.plugins" none registry in
    (is_handled run.0 ≡ true)
    × ((is_err run.0 ≡ true)
        ⊎ ((plugins : List EntryPoint) × (select_entry_points installed "db_connection.plugins" none
              ≡ ok plugins)
            × Ran plugins registry run.1
            × (run.0 ≡ ok (map name_of plugins))))
load_registry_plugins_example =
    load_registry_plugins_lem installed "db_connection.plugins" none registry

-- nothing can be imported
abbrev pub no_modules : Importer
no_modules = record {
  import_module = λ name. err (other_error "ModuleNotFoundError" name);
  get_attribute = λ name o. ok o;
  model_class = λ o. none;
  as_callable = λ o. none;
}

-- a kind, and a type whose model cannot be imported
abbrev configuration : DbConnectionDslConfig
configuration = record {
  settings = record { max_connections = none };
  kinds = record { name = "queue"; description = ""; capabilities = [] } ∷ [];
  types =
      record {
        name = "rabbit";
        kind = "queue";
        properties_model = "app.models:Rabbit";
        secrets_model = none;
        public_model = none;
        connector_factory = none;
        default_driver = none;
        driver_specs = [];
        supported_drivers = [];
        capabilities = [];
        tags = [];
      }
      ∷ [];
  plugins = [];
}

apply_dsl_registry-IsWellFormed_example :
    IsWellFormed (apply_dsl_registry no_modules pg_options configuration empty_registry).1
apply_dsl_registry-IsWellFormed_example =
    apply_dsl_registry-IsWellFormed no_modules pg_options configuration empty_registry
      empty_registry-IsWellFormed

apply_dsl_registry_example :
    let run = apply_dsl_registry no_modules pg_options configuration registry in
    Extends registry run.1
    × ((is_err run.0
          || (has_kinds configuration.kinds run.1 && has_types configuration.types run.1))
        ≡ true)
apply_dsl_registry_example = apply_dsl_registry_lem no_modules pg_options configuration registry
