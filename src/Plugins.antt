-- ===== src/Plugins.antt =====
-- plugins.py: the plugins of an entry point group are loaded in the order of their names, and each
-- is run on the registry. The installed entry points are a parameter.
pub mod Loading
use db_connections.Dict.{Dict}
use db_connections.Domain.{to_set}
use db_connections.Errors.{Error, infrastructure_error, is_db_connection_error}
use db_connections.Exec.{Exec, lift, pure, ◌>>=◌}
use db_connections.Prelude.{
  List, Option, String, [], elem, if◌then◌else◌, is_nonempty, keep_if, map, none, not, some, ◌∷◌,
}
use db_connections.Registry.{ConnectionRegistry}
use db_connections.Result.{Result, err, ok}
use db_connections.Sorting.{sorted}
use db_connections.Value.{Value, list, of_list, str}

-- a plugin's callable may change the registry and may raise
abbrev pub Bootstrap : Type 0
Bootstrap = Exec ConnectionRegistry (Unit {0})

-- `EntryPoint`: what `load()` gives, if it can be called, or raises
pub record EntryPoint : Type 0 where
  pub name : String
  pub group : String
  pub load : Result (Option Bootstrap)

abbrev pub name_of : EntryPoint → String
name_of plugin = plugin.name

-- `_entry_points_for_group`
unfoldable pub entry_points_for_group : (String → List EntryPoint) → String → List EntryPoint
entry_points_for_group discovered group = sorted name_of (discovered group)

abbrev not_found : String → List String → Error
not_found group missing =
    infrastructure_error "DB Connection plugins were not found."
      (("group", str group) ∷ ("plugins", list (of_list (map str missing))) ∷ [])

-- `_select_entry_points`
unfoldable pub select_entry_points :
    (String → List EntryPoint) → String → Option (List String) → Result (List EntryPoint)
select_entry_points discovered group none = ok (entry_points_for_group discovered group)
select_entry_points discovered group (some names) =
    let requested_names = to_set names in
    let filtered =
      keep_if (λ (p : EntryPoint). elem p.name requested_names)
        (entry_points_for_group discovered group) in
    let found_names = map name_of filtered in
    let missing = sorted (λ s. s) (keep_if (λ n. not (elem n found_names)) requested_names) in
    if is_nonempty missing then err (not_found group missing) else ok filtered

abbrev at_plugin : String → String → Dict Value
at_plugin group name = ("group", str group) ∷ ("plugin", str name) ∷ []

-- `_load_plugin_callable`
unfoldable pub load_plugin_callable : EntryPoint → Result Bootstrap
load_plugin_callable plugin = elim plugin.load [
  | err e ↦ err (
      infrastructure_error "DB Connection plugin could not be imported."
        (at_plugin plugin.group plugin.name))
  | ok none ↦ err (
      infrastructure_error "DB Connection plugin must resolve to a callable bootstrap."
        (at_plugin plugin.group plugin.name))
  | ok (some bootstrap) ↦ ok bootstrap
]

-- an exception that is none of the library's is wrapped
abbrev pub wrap_failure : String → String → Result (Unit {0}) → Result (Unit {0})
wrap_failure group name (ok u) = ok u
wrap_failure group name (err e) =
    if is_db_connection_error e
    then err e
    else err (infrastructure_error "DB Connection plugin bootstrap failed." (at_plugin group name))

-- `bootstrap(registry)` with its handlers
unfoldable pub run_bootstrap : String → EntryPoint → Bootstrap → Exec ConnectionRegistry (Unit {0})
run_bootstrap group plugin bootstrap r =
    let (x, r') = bootstrap r in (wrap_failure group plugin.name x, r')

-- the loop of `load_registry_plugins`
unfoldable pub load_each : String → List EntryPoint → Exec ConnectionRegistry (List String)
load_each group [] = pure []
load_each group (plugin ∷ plugins) = lift (load_plugin_callable plugin) >>= λ bootstrap.
    run_bootstrap group plugin bootstrap >>= λ u.
    load_each group plugins >>= λ loaded. pure (plugin.name ∷ loaded)

-- `load_registry_plugins`
unfoldable pub load_registry_plugins :
    (String → List EntryPoint)
    → String
    → Option (List String)
    → Exec ConnectionRegistry (List String)
load_registry_plugins discovered group names =
    lift (select_entry_points discovered group names) >>= load_each group
