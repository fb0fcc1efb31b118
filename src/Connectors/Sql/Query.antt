-- ===== src/Connectors/Sql/Query.antt =====
-- connectors/sql.py: the query of a connection URL, and the URL of MSSQL.
use db_connections.Dict.{Dict, get}
use db_connections.Errors.{other_error}
use db_connections.Int.{int_text, scale, ℤ}
use db_connections.Prelude.{
  Bool, Option, String, [], arith, false, get_or, if◌then◌else◌, map_option, none, not, quote, some,
  true, truthy, ◌&&◌, ◌++◌, ◌==◌, ◌∷◌, ◌≡◌,
}
use db_connections.Result.{Result, err, ok}

-- what the code reads of `model_dump()`; a key that is missing reads as `none`
pub record SqlProperties : Type 0 where
  pub host : String
  pub port : Option ℤ
  pub instance_name : Option String
  pub username : String
  pub database : String
  pub secure : Bool
  pub verify : Bool
  pub ca_cert_string : Option String
  pub connect_timeout : Option ℤ
  pub send_receive_timeout : Option ℤ
  pub sync_request_timeout : Option ℤ

-- `str(b)` of a Boolean
abbrev pub bool_text : Bool → String
bool_text true = "True"
bool_text false = "False"

-- `if x is not None: query[key] = x`
abbrev pub set_number : String → Option ℤ → Dict String
set_number key none = []
set_number key (some n) = (key, int_text n) ∷ []

-- `if text: query[key] = text`
abbrev pub set_text : String → Option String → Dict String
set_text key none = []
set_text key (some s) = if truthy s then (key, s) ∷ [] else []

-- `if b: ...`
abbrev pub set_if : Bool → Dict String → Dict String
set_if b entries = if b then entries else []

abbrev pub scaled : Option ℤ → Option ℤ
scaled n = map_option (λ z. scale z 1000) n

unfoldable pub postgres_query : String → SqlProperties → Bool → Dict String
postgres_query driver p use_async =
    set_number "connect_timeout" p.connect_timeout
    ++ set_if p.secure (
        ("sslmode", if p.verify then "verify-full" else "require")
        ∷ (set_if (use_async && driver == "asyncpg") (("ssl", "True") ∷ [])
            ++ set_text "sslrootcert" p.ca_cert_string))

unfoldable pub mysql_query : SqlProperties → Bool → Dict String
mysql_query p use_async =
    set_number "connect_timeout" p.connect_timeout
    ++ (set_if (not use_async) (
          set_number "read_timeout" p.send_receive_timeout
          ++ set_number "write_timeout" p.send_receive_timeout)
        ++ set_if p.secure (set_text "ssl_ca" p.ca_cert_string))

unfoldable pub mongodb_query : SqlProperties → Dict String
mongodb_query p =
    set_number "connectTimeoutMS" (scaled p.connect_timeout)
    ++ (set_number "socketTimeoutMS" (scaled p.send_receive_timeout)
        ++ set_if p.secure (
            ("tls", "True")
            ∷ ("tlsAllowInvalidCertificates", bool_text (not p.verify))
            ∷ set_text "tlsCAFile" p.ca_cert_string))

unfoldable pub clickhouse_query : String → SqlProperties → Dict String
clickhouse_query driver p =
    if driver == "native"
    then set_if p.secure
        (("secure", "True") ∷ ("verify", bool_text p.verify) ∷ set_text "ca_certs" p.ca_cert_string)
      ++ (set_number "connect_timeout" p.connect_timeout
          ++ set_number "sync_request_timeout" p.sync_request_timeout)
    else ("protocol", if p.secure then "https" else "http")
      ∷ ("verify", bool_text p.verify)
      ∷ (set_text "ca_certs" p.ca_cert_string ++ set_number "timeout" p.connect_timeout)

-- `_build_mssql_query`, with the ODBC driver's name of the options
unfoldable pub build_mssql_query : Option String → SqlProperties → Result (Dict String)
build_mssql_query none p = err (other_error "ValueError" "MSSQL ODBC driver options are required.")
build_mssql_query (some odbc_driver_name) p = ok (
    ("driver", odbc_driver_name)
    ∷ (set_number "Connect Timeout" p.connect_timeout
        ++ (("Encrypt", if p.secure then "yes" else "no")
            ∷ set_if p.secure (("TrustServerCertificate", if p.verify then "no" else "yes") ∷ []))))

unfoldable pub oracle_query : SqlProperties → Dict String
oracle_query p =
    set_number "tcp_connect_timeout" p.connect_timeout
    ++ (set_if p.secure (
          ("ssl_server_dn_match", bool_text p.verify)
          ∷ set_if p.verify (set_text "ssl_cert" p.ca_cert_string))
        ++ (("service_name", p.database) ∷ []))

-- `_build_query`: the values as texts, as its last line makes them. `odbc` is the driver's name of
-- the driver options, if they are ODBC's.
unfoldable pub build_query :
    String → String → SqlProperties → Option String → Bool → Result (Dict String)
build_query connection_type driver p odbc use_async =
    if connection_type == "postgres"
    then ok (postgres_query driver p use_async)
    else if connection_type == "mysql"
    then ok (mysql_query p use_async)
    else if connection_type == "mongodb"
    then ok (mongodb_query p)
    else if connection_type == "clickhouse"
    then ok (clickhouse_query driver p)
    else if connection_type == "mssql"
    then build_mssql_query odbc p
    else if connection_type == "oracle"
    then ok (oracle_query p)
    else ok []

-- host and port in `_build_mssql_url`: a named instance has no port
unfoldable pub mssql_address : SqlProperties → String × Option ℤ
mssql_address p =
    if truthy (get_or p.instance_name "")
    then (quote p.host "\\" (get_or p.instance_name ""), none)
    else (p.host, p.port)

-- an entry of a query that was built
abbrev pub entry : String → Result (Dict String) → Option String
entry key (ok query) = get key query
entry key (err e) = none

-- a setting of a secure connection
abbrev pub if_secure : SqlProperties → String → Option String
if_secure p s = if p.secure then some s else none

-- For MySQL without a CA certificate the query is the same whether the connection is to be secure
-- or not.
pub mysql_without_ca :
    (driver : String) (p : SqlProperties) (odbc : Option String) (use_async secure : Bool)
    → p.ca_cert_string ≡ none
    → build_query "mysql" driver (record p { secure = secure }) odbc use_async
      ≡ build_query "mysql" driver p odbc use_async
unfolding build_query mysql_query
mysql_without_ca driver p odbc use_async secure h = ground arith
