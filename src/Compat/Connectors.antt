-- ===== src/Compat/Connectors.antt =====
-- compat/connectors/, compat/registry.py and compat/async_registry.py, with the dispatch of
-- compat/manager.py and compat/async_manager.py: how a connection of the first version is checked by
-- a connector of the present one.
use db_connections.Compat.Bridge.{
  ConnectionType, DbConnection, Mode, async, custom, ftp, kafka, mssql, mysql, postgres, s3, sftp,
  sync, type_value, uses_runtime_bridge,
}
use db_connections.Domain.{Client, ConnectionCheckResult, ValidatedConnection}
use db_connections.Errors.{Error, other_error}
use db_connections.Exec.{Exec, lift, ◌>>=◌}
use db_connections.Prelude.{
  Bool, Option, String, [], elem, false, if◌then◌else◌, inl, inr, none, not, quote, refl, some,
  true, ◌==◌, ◌∷◌, ◌≡◌,
}
use db_connections.Result.{Result, Result-cases, err, is_err, ok}

-- the classes of connectors, two of them asynchronous
pub data ConnectorClass : Type 0 where
  sql_sync : ConnectorClass
  kafka_sync : ConnectorClass
  s3_sync : ConnectorClass
  ftp_sync : ConnectorClass
  sftp_sync : ConnectorClass
  sql_async : ConnectorClass
  kafka_async : ConnectorClass

-- `CONNECTOR_REGISTRY`
abbrev pub connector_registry : ConnectionType → Option ConnectorClass
connector_registry kafka = some kafka_sync
connector_registry s3 = some s3_sync
connector_registry ftp = some ftp_sync
connector_registry sftp = some sftp_sync
connector_registry custom = none
connector_registry _ = some sql_sync

-- `ASYNC_CONNECTOR_REGISTRY`
abbrev pub async_connector_registry : ConnectionType → Option ConnectorClass
async_connector_registry postgres = some sql_async
async_connector_registry mysql = some sql_async
async_connector_registry mssql = some sql_async
async_connector_registry kafka = some kafka_async
async_connector_registry _ = none

-- `ConnectionManager.get_connector` and `AsyncConnectionManager.get_connector`
unfoldable pub manager_connector : Mode → ConnectionType → Result ConnectorClass
manager_connector sync t = elim (connector_registry t) [
  | none ↦
      err (other_error "NotImplementedError" (quote "No connector for type: " (type_value t) ""))
  | some c ↦ ok c
]
manager_connector async t = elim (async_connector_registry t) [
  | none ↦ err (
      other_error "NotImplementedError"
        (quote "No connector implemented for type: " (type_value t) ""))
  | some c ↦ ok c
]

-- Exactly the types that the runtime backs have a connector, and exactly four an asynchronous one.
pub manager_connector-is_err :
    (t : ConnectionType)
    → (is_err (manager_connector sync t) ≡ not (uses_runtime_bridge t))
      × (is_err (manager_connector async t)
          ≡ not (elem (type_value t) ("postgres" ∷ "mysql" ∷ "mssql" ∷ "kafka" ∷ [])))
unfolding manager_connector uses_runtime_bridge
manager_connector-is_err custom = (refl, refl)
manager_connector-is_err _ = (refl, refl)

-- the mode in which a class asks for the validated connection
abbrev pub mode_of : ConnectorClass → Mode
mode_of sql_async = async
mode_of _ = sync

-- `ConnectionStatus` before pydantic has validated it
pub record ConnectionStatus : Type 0 where
  pub name : Option String
  pub connected : Bool
  pub message : Option String
  pub exception : Option String

-- `asdict(result)` in `to_legacy_status`
abbrev pub status_of : ConnectionCheckResult → ConnectionStatus
status_of r = record {
  name = r.name;
  connected = r.connected;
  message = r.message;
  exception = r.exception;
}

abbrev pub is_class : String → Error → Bool
is_class c (other_error d m) = d == c
is_class c _ = false

-- the exceptions that `check` of a class raises again
abbrev pub reraises : ConnectorClass → Error → Bool
reraises sql_sync e = is_class "WrongDBTypeError" e
reraises sql_async e = is_class "DBTypeNotSupported" e
reraises _ e = false

-- whether `get_client` of a class turns every exception into `None`
abbrev pub swallows : ConnectorClass → Bool
swallows s3_sync = true
swallows ftp_sync = true
swallows sftp_sync = true
swallows sql_async = true
swallows _ = false

-- What is given: the bridge's validation in a mode, the connectors of the present version, the
-- validation of a status by pydantic, and `str(error)`.
module _ {S : Type 0} (to_runtime : Mode → DbConnection → Result ValidatedConnection)
    (runtime_check : ConnectorClass → ValidatedConnection → Exec S ConnectionCheckResult)
    (runtime_client : ConnectorClass → ValidatedConnection → Exec S Client)
    (validate_status : ConnectionStatus → Result ConnectionStatus)
    (error_text : Error → String) where
  -- the status of a check that raised
  abbrev pub failed_status : DbConnection → Error → ConnectionStatus
  failed_status c e = record {
    name = some c.name;
    connected = false;
    message = some (error_text e);
    exception = some (error_text e);
  }

  -- the body of `check` under its `try`, `to_legacy_status` included
  abbrev pub try_check : ConnectorClass → DbConnection → Exec S ConnectionStatus
  try_check k c = lift (to_runtime (mode_of k) c) >>= λ v.
      runtime_check k v >>= λ r. lift (validate_status (status_of r))

  abbrev pub handle_check :
      ConnectorClass → DbConnection → Result ConnectionStatus → Result ConnectionStatus
  handle_check k c (ok status) = ok status
  handle_check k c (err e) = if reraises k e then err e else validate_status (failed_status c e)

  -- `check` of a connector
  unfoldable pub check_legacy : ConnectorClass → DbConnection → Exec S ConnectionStatus
  check_legacy k c s = let (x, s') = try_check k c s in (handle_check k c x, s')

  abbrev pub handle_client : ConnectorClass → Result Client → Result (Option Client)
  handle_client k (ok client) = ok (some client)
  handle_client k (err e) = if swallows k then ok none else err e

  -- `get_client` of a connector
  unfoldable pub get_client_legacy : ConnectorClass → DbConnection → Exec S (Option Client)
  get_client_legacy k c s =
      let (x, s') = (lift (to_runtime (mode_of k) c) >>= runtime_client k) s in
      (handle_client k x, s')

  -- `check_connection` of the managers
  unfoldable pub manager_check : Mode → DbConnection → Exec S ConnectionStatus
  manager_check mode c = lift (manager_connector mode c.type) >>= λ k. check_legacy k c

  -- `get_client` of the managers
  unfoldable pub manager_client : Mode → DbConnection → Exec S (Option Client)
  manager_client mode c = lift (manager_connector mode c.type) >>= λ k. get_client_legacy k c

  -- what is answered: the status of the run, or of its exception
  abbrev pub answer_of : DbConnection → Result ConnectionStatus → ConnectionStatus
  answer_of c (ok status) = status
  answer_of c (err e) = failed_status c e

  -- A manager's check of a connection whose type has a connector always returns a status, and runs
  -- the connector once, if pydantic accepts statuses under the connection's name and the run raises
  -- no exception that the connector raises again. The status is the run's, or says that the
  -- connection failed, with the text of the exception.
  pub check_connection_lem :
      (mode : Mode) (c : DbConnection) (k : ConnectorClass) (s : S)
      → manager_connector mode c.type ≡ ok k
      → ((e : Error)
          → (try_check k c s).0 ≡ err e
          → (reraises k e ≡ false) × (validate_status (failed_status c e) ≡ ok (failed_status c e)))
      → manager_check mode c s ≡ (ok (answer_of c (try_check k c s).0), (try_check k c s).1)
  unfolding manager_check check_legacy
  check_connection_lem mode c k s known accepted = elim (Result-cases (try_check k c s).0) [
    | inl (status, h) ↦ rw (known, h) refl
    | inr (e, h) ↦ let (goes_on, fits) = accepted e h in rw (known, h, goes_on, fits) refl
  ]
