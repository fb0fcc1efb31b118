-- ===== src/Compat/Urls.antt =====
-- compat/url_builder.py: which dialect and which query parameters the first version of the library
-- uses for the URL of a SQL connection.
pub mod Texts
pub mod Agreement
use db_connections.Dict.{Dict}
use db_connections.Errors.{Error, other_error}
use db_connections.Int.{int_text, scale, ℤ}
use db_connections.Prelude.{
  Bool, List, Option, String, [], false, get_or, if◌then◌else◌, none, not, quote, some, true,
  truthy, ◌++◌, ◌∷◌,
}
use db_connections.Result.{Result, err, ok}

-- `SqlConnectionProperties`, without the constraints on its fields
pub record SqlConnectionProperties : Type 0 where
  pub host : String
  pub port : ℤ
  pub username : String
  pub password : Option String
  pub database : String
  pub secure : Option Bool
  pub connect_timeout : Option ℤ
  pub send_receive_timeout : Option ℤ
  pub sync_request_timeout : Option ℤ
  pub ca_cert_string : Option String
  pub verify : Option Bool
  pub driver_name : Option String

-- `bool(b)` of an optional Boolean
abbrev pub is_true : Option Bool → Bool
is_true none = false
is_true (some b) = b

-- the values of a query
pub data Setting : Type 0 where
  number : ℤ → Setting
  text_value : String → Setting
  flag : Option Bool → Setting

-- `if x is not None: q[key] = f(x)`
abbrev pub put_number : String → (ℤ → Setting) → Option ℤ → Dict Setting
put_number key f none = []
put_number key f (some n) = (key, f n) ∷ []

-- `if text: q[key] = text`
abbrev pub put_text : String → Option String → Dict Setting
put_text key none = []
put_text key (some s) = if truthy s then (key, text_value s) ∷ [] else []

-- `if b: ...`
abbrev pub put_if : Bool → Dict Setting → Dict Setting
put_if b entries = if b then entries else []

-- `n * 1000`
abbrev pub milliseconds : ℤ → Setting
milliseconds n = number (scale n 1000)

-- `PostgresAdapter.to_query` of properties that are given
unfoldable pub postgres_adapter : SqlConnectionProperties → Dict Setting
postgres_adapter p =
    put_number "connect_timeout" number p.connect_timeout
    ++ put_if (is_true p.secure) (
        ("sslmode", text_value (if is_true p.verify then "verify-full" else "require"))
        ∷ put_text "sslrootcert" p.ca_cert_string)

-- `AsyncpgAdapter.to_query`
unfoldable pub asyncpg_adapter : SqlConnectionProperties → Dict Setting
asyncpg_adapter p = put_if (is_true p.secure) (
    ("sslmode", text_value (if is_true p.verify then "verify-full" else "require"))
    ∷ (put_text "sslrootcert" p.ca_cert_string ++ (("ssl", flag (some true)) ∷ [])))

-- `PyMySQLAdapter.to_query`
unfoldable pub py_mysql_adapter : SqlConnectionProperties → Dict Setting
py_mysql_adapter p =
    put_number "connect_timeout" number p.connect_timeout
    ++ (put_if (is_true p.secure) (put_text "ssl_ca" p.ca_cert_string)
        ++ (put_number "read_timeout" number p.send_receive_timeout
            ++ put_number "write_timeout" number p.send_receive_timeout))

-- `AIOSQLAdapter.to_query`
unfoldable pub aio_sql_adapter : SqlConnectionProperties → Dict Setting
aio_sql_adapter p =
    put_number "connect_timeout" number p.connect_timeout
    ++ put_if (is_true p.secure) (put_text "ssl_ca" p.ca_cert_string)

-- `MongoAdapter.to_query`
unfoldable pub mongo_adapter : SqlConnectionProperties → Dict Setting
mongo_adapter p =
    put_number "connectTimeoutMS" milliseconds p.connect_timeout
    ++ (put_number "socketTimeoutMS" milliseconds p.send_receive_timeout
        ++ put_if (is_true p.secure) (
            ("tls", flag (some true))
            ∷ ("tlsAllowInvalidCertificates", flag (some (not (is_true p.verify))))
            ∷ put_text "tlsCAFile" p.ca_cert_string))

-- `ClickHouseNativeAdapter.to_query`
unfoldable pub click_house_native_adapter : SqlConnectionProperties → Dict Setting
click_house_native_adapter p =
    put_if (is_true p.secure) (
      ("secure", flag (some true))
      ∷ (put_text "ca_certs" p.ca_cert_string ++ (("verify", flag p.verify) ∷ [])))
    ++ (put_number "connect_timeout" number p.connect_timeout
        ++ put_number "sync_request_timeout" number p.sync_request_timeout)

-- `ClickHouseHttpAdapter.to_query`
unfoldable pub click_house_http_adapter : SqlConnectionProperties → Dict Setting
click_house_http_adapter p =
    ("protocol", text_value (if is_true p.secure then "https" else "http"))
    ∷ ("verify", flag p.verify)
    ∷ (put_text "ca_certs" p.ca_cert_string ++ put_number "timeout" number p.connect_timeout)

-- `DriverNotSpecifiedError(db_type=...)`
abbrev pub driver_not_specified : String → Error
driver_not_specified db_type =
    other_error "DriverNotSpecifiedError" (quote "Driver not specified for " db_type " connection")

-- what `PYODBCMSSQLAdapter.to_query` and `AIODBCMSSQLAdapter.to_query` build from a driver's name
abbrev pub odbc_entries : String → SqlConnectionProperties → Dict Setting
odbc_entries name p =
    ("driver", text_value name)
    ∷ (put_number "Connect Timeout" (λ n. text_value (int_text n)) p.connect_timeout
        ++ (if is_true p.secure
            then ("Encrypt", text_value "yes")
              ∷ ("TrustServerCertificate", text_value (if is_true p.verify then "no" else "yes"))
              ∷ []
            else ("Encrypt", text_value "no") ∷ []))

unfoldable pub pyodbc_mssql_adapter : SqlConnectionProperties → Result (Dict Setting)
pyodbc_mssql_adapter p =
    if truthy (get_or p.driver_name "")
    then ok (odbc_entries (get_or p.driver_name "") p)
    else err (driver_not_specified "mssql")

unfoldable pub aiodbc_mssql_adapter : SqlConnectionProperties → Result (Dict Setting)
aiodbc_mssql_adapter p =
    if truthy (get_or p.driver_name "")
    then ok (odbc_entries (get_or p.driver_name "") p)
    else err (driver_not_specified "mssql")

-- `OracleAdapter.to_query`
unfoldable pub oracle_adapter : SqlConnectionProperties → Dict Setting
oracle_adapter p =
    put_number "tcp_connect_timeout" number p.connect_timeout
    ++ (put_if (is_true p.secure) (
          ("ssl_server_dn_match", flag p.verify)
          ∷ put_if (is_true p.verify) (put_text "ssl_cert" p.ca_cert_string))
        ++ (("service_name", text_value p.database) ∷ []))

-- a `QueryAdapter`
abbrev pub Adapter : Type 0
Adapter = SqlConnectionProperties → Result (Dict Setting)

-- `to_query`: no properties, no query
unfoldable pub to_query : Adapter → Option SqlConnectionProperties → Result (Dict Setting)
to_query adapter none = ok []
to_query adapter (some p) = adapter p

-- `DIALECTS`: by type and driver, MongoDB by its type alone
abbrev pub dialects : List ((String × String) × (String × Adapter))
dialects =
    (("postgres", "psycopg"), ("postgresql+psycopg", λ p. ok (postgres_adapter p)))
    ∷ (("postgres", "psycopg2"), ("postgresql+psycopg2", λ p. ok (postgres_adapter p)))
    ∷ (("postgres", "asyncpg"), ("postgresql+asyncpg", λ p. ok (asyncpg_adapter p)))
    ∷ (("clickhouse", "native"), ("clickhouse+native", λ p. ok (click_house_native_adapter p)))
    ∷ (("clickhouse", "http"), ("clickhouse+http", λ p. ok (click_house_http_adapter p)))
    ∷ (("mysql", "pymysql"), ("mysql+pymysql", λ p. ok (py_mysql_adapter p)))
    ∷ (("mysql", "aiomysql"), ("mysql+aiomysql", λ p. ok (aio_sql_adapter p)))
    ∷ (("mssql", "pyodbc"), ("mssql+pyodbc", pyodbc_mssql_adapter))
    ∷ (("mssql", "aioodbc"), ("mssql+aioodbc", aiodbc_mssql_adapter))
    ∷ (("oracle", "oracledb"), ("oracle+oracledb", λ p. ok (oracle_adapter p)))
    ∷ (("mongodb", ""), ("mongodb", λ p. ok (mongo_adapter p)))
    ∷ []
