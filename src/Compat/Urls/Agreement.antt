-- ===== src/Compat/Urls/Agreement.antt =====
-- The URLs of the first version (compat/url_builder.py) against those of connectors/sql.py.
use db_connections.Compat.Urls.{Adapter, SqlConnectionProperties, is_true}
use db_connections.Connectors.Sql.{resolve_sql_driver_spec}
use db_connections.Connectors.Sql.Query.{SqlProperties}
use db_connections.Prelude.{Bool, Option, String, false, none, some, ◌==◌, ◌||◌}
use db_connections.Result.{err, ok}

-- the same properties for connectors/sql.py
abbrev pub sql_properties : SqlConnectionProperties → SqlProperties
sql_properties p = record {
  host = p.host;
  port = some p.port;
  instance_name = none;
  username = p.username;
  database = p.database;
  secure = is_true p.secure;
  verify = is_true p.verify;
  ca_cert_string = p.ca_cert_string;
  connect_timeout = p.connect_timeout;
  send_receive_timeout = p.send_receive_timeout;
  sync_request_timeout = p.sync_request_timeout;
}

module _ (p : SqlConnectionProperties) where
  abbrev q : SqlProperties
  q = sql_properties p

-- `o == name` of an optional text
abbrev is_named : Option String → String → Bool
is_named none name = false
is_named (some s) name = s == name

-- whether connectors/sql.py has the dialect for the driver too
abbrev pub has_same_dialect : (String × String) × (String × Adapter) → Bool
has_same_dialect ((t, d), (name, adapter)) = elim (resolve_sql_driver_spec t d) [
  | ok spec ↦ is_named spec.sync_dialect name || is_named spec.async_dialect name
  | err e ↦ false
]
