-- ===== src/Connectors/Sql/Urls.antt =====
-- connectors/sql.py: `build_connection_url`. SQLAlchemy's URLs are seen as the arguments of
-- `URL.create`, and their rendering is given.
use db_connections.Connectors.Sql.{PreferredMode, ResolvedRuntimeDriver, resolve_runtime_driver}
use db_connections.Connectors.Sql.Query.{
  SqlProperties, build_mssql_query, build_query, mssql_address,
}
use db_connections.Dict.{Dict}
use db_connections.Errors.{connection_type_not_supported, other_error}
use db_connections.Int.{ℤ}
use db_connections.Prelude.{
  Bool, Bool-cases, List, Option, String, [], arith, elem, eq_iff, false, if◌then◌else◌, inl, inr,
  is_none, none, not, refl, some, sym, true, ◌&&◌, ◌==◌, ◌||◌, ◌∙◌, ◌∷◌, ◌≡◌,
}
use db_connections.Result.{Result, Result-cases, is_err, ok, passed, raise_if, ◌>>=◌, ◌>>◌}

-- what the connector reads of a `ValidatedConnection`: `odbc` is the driver's name of the driver
-- options, if they are ODBC's
pub record SqlConnection : Type 0 where
  pub name : Option String
  pub type : String
  pub driver : Option String
  pub odbc : Option String
  pub properties : SqlProperties
  pub password : Option String

-- the arguments of `sa.URL.create`
pub record UrlArguments : Type 0 where
  pub drivername : String
  pub username : String
  pub password : Option String
  pub host : String
  pub port : Option ℤ
  pub database : Option String
  pub query : Dict String

-- a URL, or the text of one
pub data ConnectionUrl : Type 0 where
  url : UrlArguments → ConnectionUrl
  rendered : String → ConnectionUrl

-- `SQL_TYPES`
abbrev pub sql_types : List String
sql_types = "postgres" ∷ "mysql" ∷ "clickhouse" ∷ "mssql" ∷ "oracle" ∷ "mongodb" ∷ []

-- the arguments but host, port and database, which are alike for all types
abbrev url_of :
    SqlConnection → String → String → Option ℤ → Option String → Dict String → UrlArguments
url_of c drivername host port database query = record {
  drivername = drivername;
  username = c.properties.username;
  password = c.password;
  host = host;
  port = port;
  database = database;
  query = query;
}

-- `_build_mssql_url`
unfoldable pub build_mssql_url : SqlConnection → String → Dict String → UrlArguments
build_mssql_url c drivername query =
    let (host, port) = mssql_address c.properties in
    url_of c drivername host port (some c.properties.database) query

-- a type that is one is not another
eq_one : (t a b : String) → (t == a) ≡ true → (a == b) ≡ false → (t == b) ≡ false
eq_one t a b h k = rw ((eq_iff t a).0 h) k

-- a query is built but for MSSQL without its options
build_query-is_err :
    (t driver : String) (p : SqlProperties) (odbc : Option String) (use_async : Bool)
    → is_err (build_query t driver p odbc use_async) ≡ (t == "mssql" && is_none odbc)
unfolding build_query build_mssql_query
build_query-is_err t driver p none use_async = elim (Bool-cases (t == "mssql")) [
  | inl e ↦ rw ((eq_iff t "mssql").0 e) refl
  | inr e ↦ ground arith
]
build_query-is_err t driver p (some n) use_async = ground arith

-- the installed SQLAlchemy as far as URLs are concerned, whether `psycopg` is found, and the mode
module _ (installed : Bool) (render_as_string : UrlArguments → String) (has_psycopg : Bool)
    (mode : PreferredMode) where
  -- the branches on the type, once the driver is resolved and the query is built
  unfoldable pub url_by_type : SqlConnection → String → Dict String → ConnectionUrl
  url_by_type c dialect query =
      let p = c.properties in
      if c.type == "mongodb"
      then rendered (render_as_string (url_of c dialect p.host p.port (some p.database) query))
      else if c.type == "oracle"
      then url (url_of c dialect p.host p.port none query)
      else if c.type == "mssql"
      then url (build_mssql_url c dialect query)
      else url (url_of c dialect p.host p.port (some p.database) query)

  -- `build_connection_url`
  unfoldable pub build_connection_url : SqlConnection → Result ConnectionUrl
  build_connection_url c = do
    raise_if (not installed)
        (other_error "RuntimeError" "SQL connections support requires Python's sqlalchemy module")
    raise_if (not (elem c.type sql_types)) (connection_type_not_supported c.type)
    runtime ← resolve_runtime_driver has_psycopg mode c.type c.driver
    query ← build_query c.type runtime.driver c.properties c.odbc runtime.use_async
    ok (url_by_type c runtime.sqlalchemy_dialect query)

  -- what the URL of a connection is to say, by its type
  abbrev pub address : SqlConnection → String × Option ℤ
  address c =
      if c.type == "mssql"
      then mssql_address c.properties
      else (c.properties.host, c.properties.port)

  -- the arguments by type
  abbrev arguments : SqlConnection → String → Dict String → UrlArguments
  arguments c dialect query =
      url_of c dialect (address c).0 (address c).1
        (if c.type == "oracle" then none else some c.properties.database) query

  url_by_type_lem :
      (c : SqlConnection) (dialect : String) (query : Dict String)
      → url_by_type c dialect query ≡ (
          if c.type == "mongodb"
          then rendered (render_as_string (arguments c dialect query))
          else url (arguments c dialect query))
  unfolding url_by_type build_mssql_url
  url_by_type_lem c dialect query = elim (Bool-cases (c.type == "mongodb")) [
    | inl e ↦
        let no_oracle = eq_one c.type "mongodb" "oracle" e refl in
        let no_mssql = eq_one c.type "mongodb" "mssql" e refl in ground arith
    | inr e ↦ elim (Bool-cases (c.type == "oracle")) [
      | inl o ↦ let no_mssql = eq_one c.type "oracle" "mssql" o refl in ground arith
      | inr o ↦ ground arith
    ]
  ]

  -- A URL is built exactly if SQLAlchemy is installed, the type is one of SQL's, its driver is
  -- resolved, and the options of MSSQL are ODBC's.
  pub build_connection_url-is_err :
      (c : SqlConnection)
      → is_err (build_connection_url c) ≡ (
          not installed
          || (not (elem c.type sql_types)
              || (is_err (resolve_runtime_driver has_psycopg mode c.type c.driver)
                  || (c.type == "mssql" && is_none c.odbc))))
  unfolding build_connection_url
  build_connection_url-is_err c =
      elim (Result-cases (resolve_runtime_driver has_psycopg mode c.type c.driver)) [
        | inl (r, e) ↦
            let q = build_query-is_err c.type r.driver c.properties c.odbc r.use_async in
            elim (Result-cases (build_query c.type r.driver c.properties c.odbc r.use_async)) [
              | inl (query, e1) ↦ ground arith
              | inr (x, e1) ↦ ground arith
            ]
        | inr (x, e) ↦ ground arith
      ]

  -- A URL that is built runs on the dialect that was resolved and carries the query that was built,
  -- the user's name and password, and the address: host and port, which for MSSQL are those of the
  -- instance. The database is in it unless the type is Oracle, where the query names it; the URL of
  -- MongoDB is rendered as a text.
  pub build_connection_url_lem :
      (c : SqlConnection) (u : ConnectionUrl)
      → build_connection_url c ≡ ok u
      → (r : ResolvedRuntimeDriver) × (a : UrlArguments) × (resolve_runtime_driver has_psycopg mode
            c.type c.driver
          ≡ ok r)
        × (build_query c.type r.driver c.properties c.odbc r.use_async ≡ ok a.query)
        × (u ≡ (if c.type == "mongodb" then rendered (render_as_string a) else url a))
        × (a.drivername ≡ r.sqlalchemy_dialect)
        × (a.username ≡ c.properties.username)
        × (a.password ≡ c.password)
        × ((a.host, a.port) ≡ address c)
        × (a.database ≡ (if c.type == "oracle" then none else some c.properties.database))
  unfolding build_connection_url
  build_connection_url_lem c u h =
      let (tt1, e1, h1) = passed (raise_if (not installed) _) _ u h in
      let (tt2, e2, h2) = passed (raise_if (not (elem c.type sql_types)) _) _ u h1 in
      let (r, e3, h3) = passed (resolve_runtime_driver has_psycopg mode c.type c.driver) _ u h2 in
      let (query, e4, h4) =
        passed (build_query c.type r.driver c.properties c.odbc r.use_async) _ u h3 in
      let same : url_by_type c r.sqlalchemy_dialect query ≡ u = cc in
      (
        r,
        arguments c r.sqlalchemy_dialect query,
        e3,
        e4,
        sym same ∙ url_by_type_lem c r.sqlalchemy_dialect query,
        refl,
        refl,
        refl,
        refl,
        refl,
      )
