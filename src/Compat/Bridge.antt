-- ===== src/Compat/Bridge.antt =====
-- compat/runtime_bridge.py (with types.py and defaults.py): how a connection of the first version
-- becomes a draft, and a validated connection, of the present one.
pub mod Splitting
pub mod Drafting
use db_connections.Dict.{Dict, contains, erase, get, insert}
use db_connections.Domain.{
  ConnectionDraft, Model, Payload, ValidatedConnection, absent, instance_of,
}
use db_connections.Errors.{Error, other_error}
use db_connections.Prelude.{
  Bool, List, Option, String, [], false, get_or, if◌then◌else◌, keep_if, none, not, quote, some,
  true, ◌∷◌,
}
use db_connections.Registry.{ConnectionRegistry, get_type}
use db_connections.Result.{Result, err, ok, raise_if, ◌>>=◌, ◌>>◌}
use db_connections.Validation.{validate}
use db_connections.Value.{Value, is_null, null, str}

-- `ConnectionType`
pub data ConnectionType : Type 0 where
  mysql : ConnectionType
  postgres : ConnectionType
  clickhouse : ConnectionType
  mongodb : ConnectionType
  mssql : ConnectionType
  kafka : ConnectionType
  s3 : ConnectionType
  oracle : ConnectionType
  ftp : ConnectionType
  sftp : ConnectionType
  custom : ConnectionType

-- its value
abbrev pub type_value : ConnectionType → String
type_value mysql = "mysql"
type_value postgres = "postgres"
type_value clickhouse = "clickhouse"
type_value mongodb = "mongodb"
type_value mssql = "mssql"
type_value kafka = "kafka"
type_value s3 = "s3"
type_value oracle = "oracle"
type_value ftp = "ftp"
type_value sftp = "sftp"
type_value custom = "custom"

-- `mode`
pub data Mode : Type 0 where
  sync : Mode
  async : Mode

-- `connection_type in SQLConnectionTypes`
abbrev pub is_sql_type : ConnectionType → Bool
is_sql_type mysql = true
is_sql_type postgres = true
is_sql_type clickhouse = true
is_sql_type mongodb = true
is_sql_type mssql = true
is_sql_type oracle = true
is_sql_type _ = false

-- `connection_type in RUNTIME_BACKED_TYPES`
unfoldable pub uses_runtime_bridge : ConnectionType → Bool
uses_runtime_bridge custom = false
uses_runtime_bridge _ = true

-- what the code reads of a `DBConnection`: its properties as `model_dump(mode="python")` gives them
pub record DbConnection : Type 0 where
  pub name : String
  pub type : ConnectionType
  pub connection_properties : Dict Value

-- `WrongDBTypeError` and `DriverNotSpecifiedError`
abbrev pub wrong_db_type : ConnectionType → Error
wrong_db_type t =
    other_error "WrongDBTypeError" (quote "Wrong DB type, received: " (type_value t) "")

abbrev pub no_driver : Error
no_driver = other_error "DriverNotSpecifiedError" "Driver not specified for mssql connection"

-- `_drop_none`
unfoldable pub drop_none : Dict Value → Dict Value
drop_none values_ = keep_if (λ kv. not (is_null kv.1)) values_

-- the loop of `_extract_secrets`: the values that are found, and what is left of `raw`
unfoldable pub pop_missing : List String → Dict Value → Dict Value → Dict Value × Dict Value
pop_missing [] values_ raw = (values_, raw)
pop_missing (key ∷ secret_keys) values_ raw = elim (contains key values_) [
  | true ↦ pop_missing secret_keys values_ raw
  | false ↦ pop_missing secret_keys (insert key (get_or (get key raw) null) values_) (erase key raw)
]

-- `_extract_secrets`, with what it leaves of `raw`, which it changes
unfoldable pub extract_secrets : Dict Value → List String → Dict Value → Dict Value × Dict Value
extract_secrets raw secret_keys values_ =
    let (found, rest) = pop_missing secret_keys values_ raw in (drop_none found, rest)

-- `_resolve_async_sql_driver`
unfoldable pub resolve_async_sql_driver : ConnectionType → Value
resolve_async_sql_driver postgres = str "asyncpg"
resolve_async_sql_driver mysql = str "aiomysql"
resolve_async_sql_driver mssql = str "aioodbc"
resolve_async_sql_driver _ = null

-- `properties`, `secrets`, `driver` and `driver_options`
pub record ConnectionData : Type 0 where
  pub properties : Dict Value
  pub secrets : Dict Value
  pub driver : Value
  pub driver_options : Payload

-- the driver that is given, or in mode `async` the default of the type
abbrev async_driver : ConnectionType → Mode → Value → Value
async_driver t sync legacy_driver_name = legacy_driver_name
async_driver t async legacy_driver_name =
    if is_null legacy_driver_name then resolve_async_sql_driver t else legacy_driver_name

-- the driver of a SQL type but MSSQL
unfoldable pub sql_driver : ConnectionType → Mode → Value → Value
sql_driver t mode legacy_driver_name =
    let driver = async_driver t mode legacy_driver_name in
    elim t [ clickhouse ↦ if is_null driver then str "http" else driver | _ ↦ driver ]

module _ (odbc_driver_options : Value → Result Model) where
  -- the driver and its options for a SQL type, without the password and the driver's name
  unfoldable pub sql_data :
      ConnectionType → Mode → Value → Dict Value → Dict Value → Result ConnectionData
  sql_data mssql mode legacy_driver_name raw secrets =
      if is_null legacy_driver_name
      then err no_driver
      else (odbc_driver_options legacy_driver_name >>= λ options. ok (record {
        properties = raw;
        secrets = secrets;
        driver = str (elim mode [ async ↦ "aioodbc" | sync ↦ "pyodbc" ]);
        driver_options = instance_of options;
      }))
  sql_data t mode legacy_driver_name raw secrets = ok (record {
    properties = raw;
    secrets = secrets;
    driver = sql_driver t mode legacy_driver_name;
    driver_options = absent;
  })

  -- `_build_connection_data(raw, secrets, None, None)`
  abbrev pub driverless : Dict Value → Dict Value → ConnectionData
  driverless raw secrets = record {
    properties = raw;
    secrets = secrets;
    driver = null;
    driver_options = absent;
  }

  -- the secret that was popped under one key
  abbrev pub popped : String → Dict Value → Dict Value
  popped key raw = (extract_secrets [] (key ∷ []) ((key, get_or (get key raw) null) ∷ [])).0

  -- `_split_connection_data`
  unfoldable pub split_connection_data : ConnectionType → Mode → Dict Value → Result ConnectionData
  split_connection_data kafka mode raw =
      ok (driverless (erase "sasl_plain_password" raw) (popped "sasl_plain_password" raw))
  split_connection_data s3 mode raw =
      let (secrets, rest) =
        extract_secrets raw ("access_token_id" ∷ "access_token_key" ∷ "session_token" ∷ []) [] in
      ok (driverless rest secrets)
  split_connection_data ftp mode raw =
      ok (driverless (erase "password" raw) (popped "password" raw))
  split_connection_data sftp mode raw =
      let (secrets, rest) =
        extract_secrets raw ("password" ∷ "private_key_passphrase" ∷ "private_key_string" ∷ [])
          [] in
      ok (driverless rest secrets)
  split_connection_data custom mode raw = err (wrong_db_type custom)
  split_connection_data t mode raw =
      let legacy_driver_name = get_or (get "driver_name" raw) null in
      let rest = erase "driver_name" raw in
      sql_data t mode legacy_driver_name (erase "password" rest) (popped "password" rest)

  -- a driver is a text or `None`
  abbrev pub driver_text : Value → Option String
  driver_text (str s) = some s
  driver_text _ = none

  -- `to_runtime_draft`
  unfoldable pub to_runtime_draft :
      ConnectionRegistry → Mode → DbConnection → Result ConnectionDraft
  to_runtime_draft runtime_registry mode c = do
    raise_if (not (uses_runtime_bridge c.type)) (wrong_db_type c.type)
    spec ← get_type (type_value c.type) runtime_registry
    data_ ← split_connection_data c.type mode c.connection_properties
    ok (record {
      name = some c.name;
      kind = spec.kind;
      type = type_value c.type;
      driver = driver_text data_.driver;
      driver_options = data_.driver_options;
      properties = some data_.properties;
      secrets = some data_.secrets;
      labels = some [];
      metadata = some [];
      extra = some [];
    })

  -- `to_runtime_validated`
  unfoldable pub to_runtime_validated :
      ConnectionRegistry → Mode → DbConnection → Result ValidatedConnection
  to_runtime_validated runtime_registry mode c = do
    raise_if (not (uses_runtime_bridge c.type)) (wrong_db_type c.type)
    draft ← to_runtime_draft runtime_registry mode c
    validate runtime_registry draft
