-- ===== src/Connectors/Sql.antt =====
-- connectors/sql.py: which SQLAlchemy dialect a driver of a connection type runs on.
pub mod Checking
pub mod Query
pub mod Urls
use db_connections.Domain.{DriverSpec, TypeSpec, driver_spec}
use db_connections.Errors.{connection_type_not_supported}
use db_connections.Prelude.{
  Bool, List, Option, Option-cases, String, [], all, arith, false, get_or, if◌then◌else◌, inl, inr,
  keep_if, none, not, refl, some, true, truthy, ◌&&◌, ◌==◌, ◌∷◌, ◌≡◌, ◌⊎◌,
}
use db_connections.Registry.Defaults.{Builtins, default_types}
use db_connections.Result.{Result, Result-cases, err, is_err, ok, ◌>>=◌}

pub record SqlDriverSpec : Type 0 where
  pub sync_dialect : Option String
  pub async_dialect : Option String

pub record ResolvedRuntimeDriver : Type 0 where
  pub driver : String
  pub sqlalchemy_dialect : String
  pub use_async : Bool

-- `preferred_mode`
pub data PreferredMode : Type 0 where
  prefer_async : PreferredMode
  prefer_sync : PreferredMode

abbrev spec_of : Option String → Option String → SqlDriverSpec
spec_of sync async = record { sync_dialect = sync; async_dialect = async }

-- the table of `_resolve_driver_spec`
abbrev pub driver_mapping : List ((String × String) × SqlDriverSpec)
driver_mapping =
    (("postgres", "psycopg"), spec_of (some "postgresql+psycopg") (some "postgresql+psycopg"))
    ∷ (("postgres", "psycopg2"), spec_of (some "postgresql+psycopg2") none)
    ∷ (("postgres", "asyncpg"), spec_of none (some "postgresql+asyncpg"))
    ∷ (("clickhouse", "native"), spec_of (some "clickhouse+native") none)
    ∷ (("clickhouse", "http"), spec_of (some "clickhouse+http") none)
    ∷ (("mysql", "pymysql"), spec_of (some "mysql+pymysql") none)
    ∷ (("mysql", "aiomysql"), spec_of none (some "mysql+aiomysql"))
    ∷ (("mssql", "pyodbc"), spec_of (some "mssql+pyodbc") none)
    ∷ (("mssql", "aioodbc"), spec_of none (some "mssql+aioodbc"))
    ∷ (("oracle", "oracledb"), spec_of (some "oracle+oracledb") none)
    ∷ (("mongodb", ""), spec_of (some "mongodb") none)
    ∷ []

abbrev entry_of : String → String → List ((String × String) × SqlDriverSpec) → Option SqlDriverSpec
entry_of connection_type driver [] = none
entry_of connection_type driver (((t, d), spec) ∷ mapping_) =
    if t == connection_type && d == driver
    then some spec
    else entry_of connection_type driver mapping_

-- `_resolve_driver_spec`
unfoldable pub resolve_sql_driver_spec : String → String → Result SqlDriverSpec
resolve_sql_driver_spec connection_type driver =
    elim (entry_of connection_type driver driver_mapping) [
      | none ↦ err (connection_type_not_supported connection_type)
      | some spec ↦ ok spec
    ]

-- `defaults.get(connection_type, "")`
abbrev default_sql_driver : String → String
default_sql_driver connection_type =
    if connection_type == "clickhouse"
    then "native"
    else if connection_type == "mysql"
    then "pymysql"
    else if connection_type == "mssql"
    then "pyodbc"
    else if connection_type == "oracle"
    then "oracledb"
    else ""

-- `_resolve_driver`; whether the module `psycopg` is found is given
unfoldable pub resolve_driver : Bool → String → Option String → String
resolve_driver has_psycopg connection_type driver =
    if truthy (get_or driver "")
    then get_or driver ""
    else if connection_type == "postgres"
    then (if has_psycopg then "psycopg" else "psycopg2")
    else default_sql_driver connection_type

abbrev runtime : String → String → Bool → ResolvedRuntimeDriver
runtime driver dialect use_async = record {
  driver = driver;
  sqlalchemy_dialect = dialect;
  use_async = use_async;
}

abbrev sync_runtime : String → String → SqlDriverSpec → Result ResolvedRuntimeDriver
sync_runtime connection_type driver spec = elim spec.sync_dialect [
  | some dialect ↦ ok (runtime driver dialect false)
  | none ↦ err (connection_type_not_supported connection_type)
]

-- the choice of a dialect in `_resolve_runtime_driver`
unfoldable pub choose_dialect :
    PreferredMode → String → String → SqlDriverSpec → Result ResolvedRuntimeDriver
choose_dialect prefer_async connection_type driver spec = elim spec.async_dialect [
  | some dialect ↦ ok (runtime driver dialect true)
  | none ↦ sync_runtime connection_type driver spec
]
choose_dialect prefer_sync connection_type driver spec = sync_runtime connection_type driver spec

-- `_resolve_runtime_driver`
unfoldable pub resolve_runtime_driver :
    Bool → PreferredMode → String → Option String → Result ResolvedRuntimeDriver
resolve_runtime_driver has_psycopg mode connection_type driver =
    let name = resolve_driver has_psycopg connection_type driver in
    resolve_sql_driver_spec connection_type name >>= λ spec.
    choose_dialect mode connection_type name spec

chosen :
    (mode : PreferredMode) (t d : String) (spec : SqlDriverSpec) (r : ResolvedRuntimeDriver)
    → choose_dialect mode t d spec ≡ ok r
    → (r.driver ≡ d)
      × (((mode ≡ prefer_async)
            × (r.use_async ≡ true)
            × (spec.async_dialect ≡ some r.sqlalchemy_dialect))
          ⊎ ((r.use_async ≡ false) × (spec.sync_dialect ≡ some r.sqlalchemy_dialect)))
unfolding choose_dialect
chosen prefer_async t d spec r h = elim (Option-cases spec.async_dialect) [
  | inl e ↦ (ground arith, inr (ground arith))
  | inr (a, e) ↦ (ground arith, inl (refl, ground arith, ground arith))
]
chosen prefer_sync t d spec r h = (ground arith, inr (ground arith))

-- A driver that is resolved is the one that is given or the default of the type, and its dialect is
-- the one that the table has for it: the asynchronous one only if that mode is preferred.
pub resolve_runtime_driver_lem :
    (has_psycopg : Bool) (mode : PreferredMode) (t : String) (driver : Option String)
    (r : ResolvedRuntimeDriver)
    → resolve_runtime_driver has_psycopg mode t driver ≡ ok r
    → (spec : SqlDriverSpec) × (resolve_sql_driver_spec t r.driver ≡ ok spec)
      × (r.driver ≡ resolve_driver has_psycopg t driver)
      × (((mode ≡ prefer_async)
            × (r.use_async ≡ true)
            × (spec.async_dialect ≡ some r.sqlalchemy_dialect))
          ⊎ ((r.use_async ≡ false) × (spec.sync_dialect ≡ some r.sqlalchemy_dialect)))
unfolding resolve_runtime_driver
resolve_runtime_driver_lem has_psycopg mode t driver r h =
    let name = resolve_driver has_psycopg t driver in
    elim (Result-cases (resolve_sql_driver_spec t name)) [
      | inr (e, unknown) ↦ ground arith
      | inl (spec, known) ↦
          let (same, dialect) = chosen mode t name spec r (rw known at h) in
          (spec, rw same known, same, dialect)
    ]

-- whether the connector, as it is made for the registry, has a dialect for the driver
abbrev pub has_dialect : Bool → TypeSpec → Option String → Bool
has_dialect has_psycopg spec driver =
    not (is_err (resolve_runtime_driver has_psycopg prefer_async spec.name driver))

-- Every driver that the default registry declares for a type of kind "sql" has a dialect, and so
-- has such a type where no driver is named, whether `psycopg` is installed or not: no connection
-- that the registry accepts is refused by the connector as unsupported.
pub default_types_have_dialects :
    (b : Builtins) (has_psycopg : Bool)
    → all
        (λ (s : TypeSpec).
          has_dialect has_psycopg s none
          && all (λ (d : DriverSpec). has_dialect has_psycopg s (some d.name)) s.driver_specs)
        (keep_if (λ (s : TypeSpec). s.kind == "sql") (default_types b))
      ≡ true
unfolding resolve_runtime_driver resolve_sql_driver_spec choose_dialect resolve_driver driver_spec
default_types_have_dialects b true = refl
default_types_have_dialects b false = refl
