-- ===== src/Tests/Compatible.antt =====
-- The theorems on the compatibility layer at concrete payloads.
use Prim.Native.String.append as Append
use db_connections.Compat.Bridge.{
  DbConnection, drop_none, extract_secrets, kafka, mssql, pop_missing, split_connection_data, sync,
  to_runtime_draft, uses_runtime_bridge,
}
use db_connections.Compat.Bridge.Drafting.{to_runtime_draft-is_err, to_runtime_draft_lem}
use db_connections.Compat.Encryption.{
  decrypt_sensitive_fields, encrypt_sensitive_fields, sensitive_fields,
}
use db_connections.Compat.Encryption.Laws.{
  decrypt-encrypt_sensitive_fields, encrypt_sensitive_fields_lem, is_sealed, value_at,
}
use db_connections.Compat.Urls.{SqlConnectionProperties}
use db_connections.Connectors.Texts.{starts_with}
use db_connections.Dict.{Dict, get}
use db_connections.Domain.{ConnectionDraft, Model, TypeSpec, absent}
use db_connections.Errors.{other_error}
use db_connections.Int.{pos}
use db_connections.Prelude.{
  String, [], all, elem, get_or, is_some, none, refl, some, true, ◌∙◌, ◌∷◌, ◌≡◌, ◌⊎◌,
}
use db_connections.Registry.{ConnectionRegistry, get_type}
use db_connections.Result.{Result, err, is_err, ok}
use db_connections.Tests.Data.{pg_type, registry}
use db_connections.Tests.Storing.{strip_star, toy_fernet}
use db_connections.Value.{Value, null, str}

abbrev login : Dict Value
login = ("host", str "db") ∷ ("password", str "hunter2") ∷ ("session_token", null) ∷ []

toy_fernet-own : (s : String) → toy_fernet.decrypt (toy_fernet.encrypt s) ≡ some s
toy_fernet-own s = (λ i. strip_star (Append.cons "*" "" s i)) ∙ (λ i. some (Append.nil s i))

decrypt-encrypt_sensitive_fields_example :
    get "password" (
      decrypt_sensitive_fields (some toy_fernet) (encrypt_sensitive_fields (some toy_fernet) login))
    ≡ some (str "hunter2")
unfolding starts_with
decrypt-encrypt_sensitive_fields_example =
    decrypt-encrypt_sensitive_fields toy_fernet login "password" toy_fernet-own refl

encrypt_sensitive_fields_example :
    let sealed = encrypt_sensitive_fields (some toy_fernet) login in
    (all (λ name. is_sealed (value_at name sealed)) sensitive_fields ≡ true)
    × ((elem "password" sensitive_fields ≡ true) ⊎ (get "password" sealed ≡ get "password" login))
    × (is_some (get "password" sealed) ≡ is_some (get "password" login))
    × (get "password" (encrypt_sensitive_fields (some toy_fernet) sealed) ≡ get "password" sealed)
encrypt_sensitive_fields_example = encrypt_sensitive_fields_lem toy_fernet login "password"

-- properties of a secure connection
abbrev secure_properties : SqlConnectionProperties
secure_properties = record {
  host = "db";
  port = pos 5432;
  username = "app";
  password = none;
  database = "shop";
  secure = some true;
  connect_timeout = some (pos 30);
  send_receive_timeout = some (pos 60);
  sync_request_timeout = some (pos 60);
  ca_cert_string = some "ca.pem";
  verify = some true;
  driver_name = some "ODBC Driver 18";
}

-- nothing was said of verification
abbrev unverified : SqlConnectionProperties
unverified = record secure_properties { verify = none }

-- a Kafka connection whose password is not set, and one of MSSQL without a driver
abbrev kafka_connection : DbConnection
kafka_connection = record {
  name = "events";
  type = kafka;
  connection_properties = ("client_id", str "app") ∷ ("sasl_plain_password", str "hunter2") ∷ [];
}

abbrev mssql_connection : DbConnection
mssql_connection = record kafka_connection { type = mssql }

-- a registry with the two types
abbrev two_types : ConnectionRegistry
two_types = record registry { types = ("kafka", pg_type) ∷ ("mssql", pg_type) ∷ [] }

abbrev no_options : Value → Result Model
no_options v = err (other_error "ValidationError" "")

to_runtime_draft-is_err_example :
    is_err (to_runtime_draft no_options two_types sync mssql_connection) ≡ true
unfolding uses_runtime_bridge get_type
to_runtime_draft-is_err_example = to_runtime_draft-is_err no_options two_types sync mssql_connection

abbrev kafka_draft : ConnectionDraft
kafka_draft = record {
  name = some "events";
  kind = "sql";
  type = "kafka";
  driver = none;
  driver_options = absent;
  properties = some (("client_id", str "app") ∷ []);
  secrets = some (("sasl_plain_password", str "hunter2") ∷ []);
  labels = some [];
  metadata = some [];
  extra = some [];
}

to_runtime_draft_example :
    (kafka_draft.name ≡ some "events")
    × ((spec : TypeSpec) × (get_type "kafka" two_types ≡ ok spec) × (kafka_draft.kind ≡ spec.kind))
    × (get "sasl_plain_password" (get_or kafka_draft.properties []) ≡ none)
    × (get "sasl_plain_password" (get_or kafka_draft.secrets []) ≡ some (str "hunter2"))
unfolding to_runtime_draft uses_runtime_bridge get_type split_connection_data extract_secrets
    pop_missing drop_none
to_runtime_draft_example =
    to_runtime_draft_lem no_options two_types sync kafka_connection kafka_draft
      "sasl_plain_password" refl

-- three connections were counted, and now there are nine: the limit of five still allows one more
