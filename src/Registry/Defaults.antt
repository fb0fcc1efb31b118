-- ===== src/Registry/Defaults.antt =====
-- registry/defaults.py: the registry that an application starts from. The pydantic models and the
-- connectors of the types are given.
use db_connections.Dict.{values}
use db_connections.Dict.Keyed.{All}
use db_connections.Domain.{
  Connector, DriverSpec, KindSpec, ModelClass, TypeSpec, driver_spec, post_init,
}
use db_connections.Prelude.{List, Option, String, [], map, none, refl, some, ◌∷◌, ◌≡◌}
use db_connections.Registry.{
  ConnectionRegistry, empty_registry, list_types, register_kind, register_kinds, register_type,
  register_types, type_name_of,
}
use db_connections.Registry.Copy.{IsNormal}
use db_connections.Registry.Invariant.{IsWellFormed}
use db_connections.Result.{Result, ok, ◌>>=◌}
use db_connections.Sorting.{sorted, text_le}

pub record Builtins : Type 0 where
  pub no_driver_options : ModelClass
  pub odbc_driver_options : ModelClass
  pub sql_properties : ModelClass
  pub mssql_properties : ModelClass
  pub sql_secrets : ModelClass
  pub kafka_properties : ModelClass
  pub kafka_secrets : ModelClass
  pub s3_properties : ModelClass
  pub s3_secrets : ModelClass
  pub ftp_properties : ModelClass
  pub ftp_secrets : ModelClass
  pub sftp_properties : ModelClass
  pub sftp_secrets : ModelClass
  pub sql_connector : Connector
  pub kafka_connector : Connector
  pub s3_connector : Connector
  pub ftp_connector : Connector
  pub sftp_connector : Connector

abbrev default_kinds : List KindSpec
default_kinds =
    record { name = "sql"; description = ""; capabilities = "check" ∷ "client" ∷ "query" ∷ [] }
    ∷ record {
      name = "queue";
      description = "";
      capabilities = "check" ∷ "client" ∷ "publish" ∷ [];
    }
    ∷ record {
      name = "file";
      description = "";
      capabilities = "check" ∷ "client" ∷ "list_objects" ∷ [];
    }
    ∷ []

module _ (b : Builtins) where
  -- a driver that takes no options, and one that takes those of ODBC
  abbrev plain_driver : String → DriverSpec
  plain_driver name = driver_spec name b.no_driver_options none []

  abbrev odbc_driver : String → DriverSpec
  odbc_driver name = driver_spec name b.odbc_driver_options none []

  -- a type of kind "sql" with the models of `sql_common`
  abbrev sql_type : String → Option String → List DriverSpec → TypeSpec
  sql_type name default_driver driver_specs = record {
    name = name;
    kind = "sql";
    properties_model = b.sql_properties;
    secrets_model = some b.sql_secrets;
    public_model = some b.sql_properties;
    connector_factory = some b.sql_connector;
    default_driver = default_driver;
    driver_specs = driver_specs;
    supported_drivers = [];
    capabilities = "check" ∷ "client" ∷ [];
    tags = [];
  }

  abbrev mssql_type : TypeSpec
  mssql_type =
      record (sql_type "mssql" (some "pyodbc")
        (odbc_driver "pyodbc" ∷ odbc_driver "aioodbc" ∷ [])) {
          properties_model = b.mssql_properties;
          public_model = some b.mssql_properties;
        }

  -- a type without drivers
  abbrev driverless_type :
      String → String → ModelClass → ModelClass → Connector → List String → TypeSpec
  driverless_type name kind properties secrets connector extra_capabilities = record {
    name = name;
    kind = kind;
    properties_model = properties;
    secrets_model = some secrets;
    public_model = some properties;
    connector_factory = some connector;
    default_driver = none;
    driver_specs = [];
    supported_drivers = [];
    capabilities = "check" ∷ "client" ∷ extra_capabilities;
    tags = [];
  }

  -- the types in the order of their registration
  abbrev pub default_types : List TypeSpec
  default_types =
      sql_type "postgres" (some "psycopg")
        (plain_driver "psycopg" ∷ plain_driver "psycopg2" ∷ plain_driver "asyncpg" ∷ [])
      ∷ sql_type "mysql" (some "pymysql") (plain_driver "pymysql" ∷ plain_driver "aiomysql" ∷ [])
      ∷ sql_type "clickhouse" (some "native") (plain_driver "native" ∷ plain_driver "http" ∷ [])
      ∷ mssql_type
      ∷ sql_type "oracle" (some "oracledb") (plain_driver "oracledb" ∷ [])
      ∷ sql_type "mongodb" none []
      ∷ driverless_type "kafka" "queue" b.kafka_properties b.kafka_secrets b.kafka_connector
          ("publish" ∷ [])
      ∷ driverless_type "s3" "file" b.s3_properties b.s3_secrets b.s3_connector
          ("list_objects" ∷ [])
      ∷ driverless_type "ftp" "file" b.ftp_properties b.ftp_secrets b.ftp_connector []
      ∷ driverless_type "sftp" "file" b.sftp_properties b.sftp_secrets b.sftp_connector []
      ∷ []

  unfoldable pub build_default_registry : Result ConnectionRegistry
  build_default_registry =
      register_kinds default_kinds empty_registry
      >>= register_types b.no_driver_options default_types

-- Building the default registry never raises, whatever the models are. The result is well formed,
-- lists the ten types in the order of their names, and its specs are as building them anew leaves
-- them, so that it can be copied.
pub build_default_registry_lem :
    (b : Builtins)
    → (r : ConnectionRegistry) × (build_default_registry b ≡ ok r)
      × IsWellFormed r
      × All (IsNormal b.no_driver_options) (values r.types)
      × (map type_name_of (list_types none r)
          ≡ "clickhouse" ∷ "ftp" ∷ "kafka" ∷ "mongodb" ∷ "mssql" ∷ "mysql" ∷ "oracle" ∷ "postgres"
            ∷ "s3" ∷ "sftp" ∷ [])
unfolding build_default_registry register_kinds register_types register_kind register_type
    list_types post_init driver_spec sorted text_le
build_default_registry_lem b = (
  _,
  refl,
  record {
    kinds_keyed = (refl, refl, (refl, refl, (refl, refl, tt)));
    types_keyed = (
      refl,
      refl,
      (
        refl,
        refl,
        (
          refl,
          refl,
          (
            refl,
            refl,
            (refl, refl, (refl, refl, (refl, refl, (refl, refl, (refl, refl, (refl, refl, tt)))))),
          ),
        ),
      ),
    );
    kinds_known =
        (refl, (refl, (refl, (refl, (refl, (refl, (refl, (refl, (refl, (refl, tt))))))))));
  },
  (refl, (refl, (refl, (refl, (refl, (refl, (refl, (refl, (refl, (refl, tt)))))))))),
  refl,
)
