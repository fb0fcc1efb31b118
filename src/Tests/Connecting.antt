-- ===== src/Tests/Connecting.antt =====
-- The theorems on the connectors and the default registry at concrete properties.
use db_connections.Connectors.Ftp.{
  FtpProperties, FtpSecrets, ftps_implicit, is_ambiguous, is_foreign, is_given, is_port,
  normalize_port_for_mode, validate_ftp, validate_ftp_lem,
}
use db_connections.Connectors.Ftp.Checking.{check_blocking, check_blocking_lem}
use db_connections.Connectors.Ftp.Client.{FtpLibrary, close_client, create_client}
use db_connections.Connectors.Sql.{ResolvedRuntimeDriver}
use db_connections.Connectors.Sql.Query.{SqlProperties}
use db_connections.Domain.{Connector, ModelClass}
use db_connections.Errors.{other_error}
use db_connections.Int.{pos}
use db_connections.Prelude.{String, false, none, refl, some, true, ℕ, ◌&&◌, ◌↔◌, ◌≡◌, ◌≤◌, ◌⊎◌}
use db_connections.Registry.Defaults.{Builtins}
use db_connections.Result.{err, ok}
use db_connections.Tests.Data.{any_class}

abbrev some_connector : Connector
some_connector = record {
  check = λ v. err (other_error "NotImplementedError" "");
  get_client = λ v. err (other_error "NotImplementedError" "");
}

abbrev plain_class : ModelClass
plain_class = any_class "app:Plain" false

abbrev pub builtins : Builtins
builtins = record {
  no_driver_options = any_class "db_connection.domain.drivers:NoDriverOptions" true;
  odbc_driver_options = any_class "db_connection.domain.drivers:ODBCDriverOptions" true;
  sql_properties = plain_class;
  mssql_properties = plain_class;
  sql_secrets = plain_class;
  kafka_properties = plain_class;
  kafka_secrets = plain_class;
  s3_properties = plain_class;
  s3_secrets = plain_class;
  ftp_properties = plain_class;
  ftp_secrets = plain_class;
  sftp_properties = plain_class;
  sftp_secrets = plain_class;
  sql_connector = some_connector;
  kafka_connector = some_connector;
  s3_connector = some_connector;
  ftp_connector = some_connector;
  sftp_connector = some_connector;
}

abbrev asyncpg_runtime : ResolvedRuntimeDriver
asyncpg_runtime = record {
  driver = "asyncpg";
  sqlalchemy_dialect = "postgresql+asyncpg";
  use_async = true;
}

abbrev pub secure_properties : SqlProperties
secure_properties = record {
  host = "db";
  port = some (pos 3306);
  instance_name = none;
  username = "app";
  database = "main";
  secure = true;
  verify = true;
  ca_cert_string = none;
  connect_timeout = some (pos 30);
  send_receive_timeout = some (pos 60);
  sync_request_timeout = none;
}

abbrev ftps : FtpProperties
ftps = record {
  host = "files";
  port = pos 21;
  mode = ftps_implicit;
  username = some "app";
  anonymous = false;
  encoding = "utf-8";
  initial_directory = none;
  verify_ssl = true;
  certfile = none;
  keyfile = none;
}

abbrev normalized : FtpProperties
normalized = record ftps { port = pos 990 }

validate_ftp_example :
    ((n : ℕ) × (normalized.port ≡ pos n) × (1 ≤ n) × (n ≤ 65535))
    × (is_foreign ftps_implicit (pos 990) ≡ false)
    × ((false && is_given (some "app")) ≡ false)
    × (normalized ≡ record ftps { port = pos 990 })
    × ((pos 990 ≡ ftps.port) ⊎ (is_foreign ftps_implicit ftps.port ≡ true))
    × (validate_ftp normalized ≡ ok normalized)
unfolding validate_ftp normalize_port_for_mode is_port is_ambiguous
validate_ftp_example = validate_ftp_lem ftps normalized refl

-- a network on which every call succeeds; its state is 0 or, while a client is open, 1
abbrev open_network : FtpLibrary ℕ
open_network = record {
  is_reachable = λ host port s. true;
  new_ftp = λ encoding s. (ok tt, s);
  new_tls = λ encoding context s. (ok tt, s);
  connect = λ host port s. (ok tt, 1);
  auth = λ s. (ok tt, s);
  prot_p = λ s. (ok tt, s);
  login = λ user passwd s. (ok tt, s);
  set_pasv = λ s. (ok tt, s);
  cwd = λ path s. (ok tt, s);
  mkd = λ path s. (ok tt, s);
  pwd = λ s. (ok "/", s);
  quit = λ s. (ok tt, 0);
  close = λ s. (ok tt, 0);
}

abbrev no_password : FtpSecrets
no_password = record { password = none }

check_blocking_example :
    let made = create_client open_network ftps no_password 0 in
    let found = open_network.pwd made.1 in
    let checked = check_blocking open_network (some "files") ftps no_password 0 in
    ((checked.0.connected ≡ true)
      ↔ ((true ≡ true) × (made.0 ≡ ok tt) × ((directory : String) × (found.0 ≡ ok directory))))
    × (checked.1 ≡ elim made.0 [ ok u ↦ (close_client open_network found.1).1 | err e ↦ made.1 ])
check_blocking_example = check_blocking_lem open_network (some "files") ftps no_password 0
