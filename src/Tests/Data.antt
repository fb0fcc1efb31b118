-- ===== src/Tests/Data.antt =====
-- The data of the tests: a registry with one type, a draft and its stored forms.
use db_connections.Dict.{Dict}
use db_connections.Domain.{
  ConnectionEnvelope, ConnectionRecord, DriverSpec, KindSpec, Model, ModelClass, TypeSpec,
  ValidatedConnection, instance_of, invalid, mapping, valid,
}
use db_connections.Prelude.{Bool, String, [], false, none, some, true, ◌∷◌}
use db_connections.Registry.{ConnectionRegistry}
use db_connections.Value.{Value, bool, null, str}

abbrev pub model_of : String → Bool → Dict Value → Model
model_of ref is_options d = record {
  ref = ref;
  is_driver_options = is_options;
  dump_python = d;
  dump_json = d;
}

-- a model class that takes every dictionary
abbrev pub any_class : String → Bool → ModelClass
any_class ref is_options = record {
  ref = ref;
  is_driver_options = is_options;
  model_validate = λ p. elim p [
    | mapping d ↦ valid (model_of ref is_options d)
    | instance_of m ↦ valid (model_of ref is_options m.dump_json)
    | _ ↦ invalid null
  ];
}

abbrev pub pg_options : ModelClass
pg_options = any_class "app.options:PgOptions" true

abbrev pub pg_driver : DriverSpec
pg_driver = record {
  name = "asyncpg";
  options_model = pg_options;
  public_options_model = pg_options;
  tags = [];
}

abbrev pub sql_kind : KindSpec
sql_kind = record { name = "sql"; description = "SQL"; capabilities = [] }

abbrev pub pg_type : TypeSpec
pg_type = record {
  name = "postgresql";
  kind = "sql";
  properties_model = any_class "app:PgProperties" false;
  secrets_model = some (any_class "app:PgSecrets" false);
  public_model = none;
  connector_factory = none;
  default_driver = some "asyncpg";
  driver_specs = pg_driver ∷ [];
  supported_drivers = "asyncpg" ∷ [];
  capabilities = [];
  tags = [];
}

abbrev pub registry : ConnectionRegistry
registry = record { kinds = ("sql", sql_kind) ∷ []; types = ("postgresql", pg_type) ∷ [] }

abbrev pub pg_draft : ConnectionEnvelope
pg_draft = record {
  name = some "main";
  kind = "sql";
  type = "postgresql";
  driver = none;
  driver_options = mapping (("ssl", bool true) ∷ []);
  properties = some (("host", str "db") ∷ []);
  secrets = some (("password", str "hunter2") ∷ []);
  labels = some (("team", str "core") ∷ []);
  metadata = some [];
  extra = some [];
}

-- the driver options of the draft as an instance
abbrev pub ssl_options : Model
ssl_options = model_of "app.options:PgOptions" true (("ssl", bool true) ∷ [])

-- the draft once it is validated
abbrev pub pg_connection : ValidatedConnection
pg_connection = record {
  name = some "main";
  kind = "sql";
  type = "postgresql";
  driver = some "asyncpg";
  driver_options = some ssl_options;
  properties = model_of "app:PgProperties" false (("host", str "db") ∷ []);
  secrets = some (model_of "app:PgSecrets" false (("password", str "hunter2") ∷ []));
  labels = ("team", str "core") ∷ [];
  metadata = [];
  extra = [];
}

-- the draft that the service stores
abbrev pub stored_draft : ConnectionEnvelope
stored_draft = record pg_draft { driver_options = instance_of ssl_options }

-- the draft with another kind than its type's
abbrev pub wrong_kind : ConnectionEnvelope
wrong_kind = record pg_draft { kind = "http" }

-- the stored draft as it is read back
abbrev pub pg_record : ConnectionRecord
pg_record = record {
  envelope = stored_draft;
  id = "c1";
  created_at = 7;
  updated_at = 7;
  deleted_at = none;
  read_issues = [];
  raw_properties = null;
  raw_driver_options = null;
  raw_secrets = null;
}

-- the same record where the secrets could not be decrypted
abbrev pub locked_record : ConnectionRecord
locked_record = record pg_record {
  read_issues =
      record {
        field = "secrets";
        code = "unreadable_secrets";
        message = "Stored connection secrets could not be decrypted.";
        details = [];
      }
      ∷ [];
}
