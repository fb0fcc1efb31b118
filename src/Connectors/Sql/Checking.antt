-- ===== src/Connectors/Sql/Checking.antt =====
-- connectors/sql.py: `check` and `get_client`. An engine of SQLAlchemy is given by its calls, each a
-- step on a state, which may raise.
use db_connections.Connectors.Kafka.Checking.{finally_do}
use db_connections.Connectors.Sql.{PreferredMode, ResolvedRuntimeDriver, resolve_runtime_driver}
use db_connections.Connectors.Sql.Urls.{
  ConnectionUrl, SqlConnection, UrlArguments, build_connection_url,
}
use db_connections.Domain.{Client, ConnectionCheckResult}
use db_connections.Errors.{Error, message, other_error}
use db_connections.Exec.{Exec, continue, lift, ◌>>=◌, ◌>>◌}
use db_connections.Prelude.{
  Bool, Bool-cases, Option, String, ap, arith, false, if◌then◌else◌, inl, inr, none, not, refl,
  some, true, ◌==◌, ◌||◌, ◌∙◌, ◌≡◌,
}
use db_connections.Result.{Result, Result-cases, err, is_err, ok, raise_if}

pub record SqlLibrary (S : Type 0) : Type 0 where
  -- whether the package can be imported, and `URL.render_as_string(hide_password=False)`
  pub installed : Bool
  pub render_as_string : UrlArguments → String
  -- `create_async_engine`, or `create_engine`
  pub new_engine : Bool → ConnectionUrl → Exec S Client
  -- `engine.connect()` and what leaves its block
  pub connect : Exec S (Unit {0})
  pub execute : String → Exec S (Unit {0})
  pub leave : Exec S (Unit {0})
  pub dispose : Exec S (Unit {0})

-- `RuntimeError`
abbrev no_sqlalchemy : Error
no_sqlalchemy =
    other_error "RuntimeError" "SQL connections support requires Python's sqlalchemy module"

-- `sa.create_engine` of a module that is `None`
abbrev no_attribute : Error
no_attribute = other_error "AttributeError" "'NoneType' object has no attribute 'create_engine'"

abbrev pub sql_result : Option String → Bool → String → Option String → ConnectionCheckResult
sql_result name connected message_ exception = record {
  name = name;
  connected = connected;
  message = some message_;
  exception = exception;
}

-- what is reported of a run: an exception by its text
abbrev pub sql_report : Option String → Result (Unit {0}) → ConnectionCheckResult
sql_report name (ok u) = sql_result name true "Connection successful." none
sql_report name (err e) = sql_result name false (message e) (some (message e))

module _ {S : Type 0} (lib : SqlLibrary S) (has_psycopg : Bool) (mode : PreferredMode) where
  abbrev pub url_to : SqlConnection → Result ConnectionUrl
  url_to c = build_connection_url lib.installed lib.render_as_string has_psycopg mode c

  -- `with engine.connect() as raw_connection: raw_connection.execute(...)`
  abbrev pub probe : String → Exec S (Unit {0})
  probe statement = lib.connect >> finally_do (lib.execute statement) lib.leave

  -- the calls of a check, once the URL is there
  abbrev pub run_check : Bool → String → ConnectionUrl → Exec S (Unit {0})
  run_check use_async statement u =
      lib.new_engine use_async u >>= λ e. probe statement >> lib.dispose

  -- `_check_async`
  unfoldable pub check_sql_async : SqlConnection → Exec S ConnectionCheckResult
  check_sql_async c s =
      if lib.installed
      then (let (x, s') = (lift (url_to c) >>= run_check true "SELECT 1") s in
          (ok (sql_report c.name x), s'))
      else (err no_sqlalchemy, s)

  -- the statement of `_check_blocking`
  abbrev pub blocking_statement : SqlConnection → String
  blocking_statement c = if c.type == "oracle" then "SELECT 1 FROM DUAL" else "SELECT 1"

  -- `_check_blocking`
  unfoldable pub check_sql_blocking : SqlConnection → Exec S ConnectionCheckResult
  check_sql_blocking c s =
      let (x, s') =
        (lift (raise_if (not lib.installed) no_attribute)
            >> (lift (url_to c) >>= run_check false (blocking_statement c)))
          s in
      (ok (sql_report c.name x), s')

  -- `check`
  unfoldable pub check_sql : SqlConnection → Exec S ConnectionCheckResult
  check_sql c = lift (resolve_runtime_driver has_psycopg mode c.type c.driver) >>= λ runtime.
      if runtime.use_async then check_sql_async c else check_sql_blocking c

  -- `_get_client_blocking`
  unfoldable pub get_sql_client_blocking : SqlConnection → Exec S Client
  get_sql_client_blocking c =
      lift (raise_if (not lib.installed) no_sqlalchemy)
      >> (lift (url_to c) >>= lib.new_engine false)

  -- `get_client`
  unfoldable pub get_client_sql : SqlConnection → Exec S Client
  get_client_sql c = lift (resolve_runtime_driver has_psycopg mode c.type c.driver) >>= λ runtime.
      if runtime.use_async
      then (lift (raise_if (not lib.installed) no_sqlalchemy)
          >> (lift (url_to c) >>= lib.new_engine true))
      else get_sql_client_blocking c

  -- the statement of a check
  abbrev pub statement_of : Bool → SqlConnection → String
  statement_of use_async c = if use_async then "SELECT 1" else blocking_statement c

  probe_lem :
      (statement : String) (s : S)
      → let opened = lib.connect s in
        let executed = lib.execute statement opened.1 in
        let left = lib.leave executed.1 in
        let disposed = lib.dispose left.1 in
        let run = (probe statement >> lib.dispose) s in
        (is_err run.0
          ≡ (is_err opened.0 || (is_err executed.0 || (is_err left.0 || is_err disposed.0))))
        × (run.1 ≡ (
            if is_err opened.0
            then opened.1
            else if is_err executed.0 || is_err left.0
            then left.1
            else disposed.1))
  probe_lem statement s =
      let opened = lib.connect s in
      let executed = lib.execute statement opened.1 in
      let left = lib.leave executed.1 in
      elim (Result-cases opened.0) [
        | inr (e, h) ↦ (ground arith, ground arith)
        | inl (u, h) ↦ elim (Result-cases executed.0) [
          | inr (e, k) ↦ elim (Result-cases left.0) [
            | inr (x, l) ↦ (ground arith, ground arith)
            | inl (x, l) ↦ (ground arith, ground arith)
          ]
          | inl (v, k) ↦ elim (Result-cases left.0) [
            | inr (x, l) ↦ (ground arith, ground arith)
            | inl (x, l) ↦ (ground arith, ground arith)
          ]
        ]
      ]

  report_connected :
      (name : Option String) (x : Result (Unit {0}))
      → ((sql_report name x).connected ≡ not (is_err x)) × ((sql_report name x).name ≡ name)
  report_connected name (ok u) = (refl, refl)
  report_connected name (err e) = (refl, refl)

  dispatched :
      (c : SqlConnection) (r : ResolvedRuntimeDriver) (s : S)
      → lib.installed ≡ true
      → resolve_runtime_driver has_psycopg mode c.type c.driver ≡ ok r
      → let run = (lift (url_to c) >>= run_check r.use_async (statement_of r.use_async c)) s in
        check_sql c s ≡ (ok (sql_report c.name run.0), run.1)
  unfolding check_sql check_sql_async check_sql_blocking
  dispatched c r s installed resolved = elim (Bool-cases r.use_async) [
    | inl a ↦ rw (resolved, a, installed) refl
    | inr a ↦ rw (resolved, a, installed) refl
  ]

  -- With SQLAlchemy installed, a check of a connection whose driver is resolved and whose URL is
  -- built always returns a result. It says that the connection works exactly if all calls returned.
  -- Where the engine was made and a connection opened, that is left whether the statement raised or
  -- not; the engine is disposed of only if nothing raised.
  pub check_sql_lem :
      (c : SqlConnection) (r : ResolvedRuntimeDriver) (u : ConnectionUrl) (s : S)
      → lib.installed ≡ true
      → resolve_runtime_driver has_psycopg mode c.type c.driver ≡ ok r
      → url_to c ≡ ok u
      → let made = lib.new_engine r.use_async u s in
        let opened = lib.connect made.1 in
        let executed = lib.execute (statement_of r.use_async c) opened.1 in
        let left = lib.leave executed.1 in
        let disposed = lib.dispose left.1 in
        (result : ConnectionCheckResult) × ((check_sql c s).0 ≡ ok result)
        × (result.name ≡ c.name)
        × (result.connected
            ≡ not (
                is_err made.0
                || (is_err opened.0
                    || (is_err executed.0 || (is_err left.0 || is_err disposed.0)))))
        × ((check_sql c s).1 ≡ (
            if is_err made.0
            then made.1
            else if is_err opened.0
            then opened.1
            else if is_err executed.0 || is_err left.0
            then left.1
            else disposed.1))
  check_sql_lem c r u s installed resolved built =
      let whole = dispatched c r s installed resolved in
      let statement = statement_of r.use_async c in
      let run = (lift (url_to c) >>= run_check r.use_async statement) s in
      let made = lib.new_engine r.use_async u s in
      let (failed, final) = probe_lem statement made.1 in
      let (says, named) = report_connected c.name run.0 in
      let started : run ≡ continue made.0 (λ e. probe statement >> lib.dispose) made.1 =
        rw built refl in
      elim (Result-cases made.0) [
        | inl (e, h) ↦
            let going : run ≡ (probe statement >> lib.dispose) made.1 = started ∙ rw h refl in
            (
              sql_report c.name run.0,
              ap (λ x. x.0) whole,
              named,
              says ∙ rw (going, h) (ap not failed),
              ap (λ x. x.1) whole ∙ rw (going, h) final,
            )
        | inr (x, h) ↦
            let over : run ≡ (err x, made.1) = started ∙ rw h refl in
            (
              sql_report c.name run.0,
              ap (λ x. x.0) whole,
              named,
              says ∙ rw (over, h) refl,
              ap (λ x. x.1) whole ∙ rw (over, h) refl,
            )
      ]
