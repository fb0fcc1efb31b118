-- ===== src/Tests/Reaching.antt =====
-- The theorems on URLs and checks of SQL connections at concrete connections.
-- an Oracle connection, whose database the query names
use db_connections.Connectors.Sql.{
  ResolvedRuntimeDriver, choose_dialect, prefer_async, resolve_driver, resolve_runtime_driver,
  resolve_sql_driver_spec,
}
use db_connections.Connectors.Sql.Checking.{SqlLibrary, check_sql, check_sql_lem}
use db_connections.Connectors.Sql.Query.{build_query, oracle_query}
use db_connections.Connectors.Sql.Urls.{
  SqlConnection, UrlArguments, build_connection_url, build_connection_url-is_err,
  build_connection_url_lem, url, url_by_type,
}
use db_connections.Domain.{ConnectionCheckResult}
use db_connections.Errors.{other_error}
use db_connections.Int.{ℤ}
use db_connections.Prelude.{Option, String, false, none, refl, some, suc, true, ℕ, ◌≡◌}
use db_connections.Result.{err, is_err, ok}
use db_connections.Tests.Connecting.{secure_properties}

abbrev oracle_connection : SqlConnection
oracle_connection = record {
  name = some "billing";
  type = "oracle";
  driver = none;
  odbc = none;
  properties = secure_properties;
  password = some "secret";
}

abbrev oracle_runtime : ResolvedRuntimeDriver
oracle_runtime = record {
  driver = "oracledb";
  sqlalchemy_dialect = "oracle+oracledb";
  use_async = false;
}

abbrev no_rendering : UrlArguments → String
no_rendering a = "rendered"

abbrev oracle_url : UrlArguments
oracle_url = record {
  drivername = "oracle+oracledb";
  username = secure_properties.username;
  password = some "secret";
  host = secure_properties.host;
  port = secure_properties.port;
  database = none;
  query = oracle_query secure_properties;
}

build_connection_url_example :
    (r : ResolvedRuntimeDriver) × (a : UrlArguments) × (resolve_runtime_driver true prefer_async
        "oracle" none
      ≡ ok r)
    × (build_query "oracle" r.driver secure_properties none r.use_async ≡ ok a.query)
    × (url oracle_url ≡ url a)
    × (a.drivername ≡ r.sqlalchemy_dialect)
    × (a.username ≡ secure_properties.username)
    × (a.password ≡ some "secret")
    × (◌≡◌ {A = String × Option ℤ}
        (a.host, a.port)
        (secure_properties.host, secure_properties.port))
    × (a.database ≡ none)
unfolding build_connection_url build_query url_by_type resolve_runtime_driver resolve_driver
    resolve_sql_driver_spec choose_dialect
build_connection_url_example =
    build_connection_url_lem true no_rendering true prefer_async oracle_connection (url oracle_url)
      refl

-- MSSQL without the options of its driver
build_connection_url-is_err_example :
    is_err (
      build_connection_url true no_rendering true prefer_async
        (record oracle_connection { type = "mssql" }))
    ≡ true
unfolding resolve_runtime_driver resolve_driver resolve_sql_driver_spec choose_dialect
build_connection_url-is_err_example =
    build_connection_url-is_err true no_rendering true prefer_async
      (record oracle_connection { type = "mssql" })

-- an engine whose statement raises; its state counts the connections that are open
abbrev dead_engine : SqlLibrary ℕ
dead_engine = record {
  installed = true;
  render_as_string = no_rendering;
  new_engine = λ use_async u s. (ok 7, s);
  connect = λ s. (ok tt, suc s);
  execute = λ statement s. (err (other_error "DatabaseError" "ORA-03113"), s);
  leave = λ s. (ok tt, 0);
  dispose = λ s. (ok tt, s);
}

check_sql_example :
    (result : ConnectionCheckResult) × ((check_sql dead_engine true prefer_async oracle_connection
        0).0
      ≡ ok result)
    × (result.name ≡ some "billing")
    × (result.connected ≡ false)
    × ((check_sql dead_engine true prefer_async oracle_connection 0).1 ≡ 0)
unfolding resolve_runtime_driver resolve_driver resolve_sql_driver_spec choose_dialect
    build_connection_url build_query url_by_type
check_sql_example =
    check_sql_lem dead_engine true prefer_async oracle_connection oracle_runtime (url oracle_url) 0
      refl refl refl
