-- ===== src/Tests/Mapping.antt =====
-- The theorems on requests and responses at a connection with extra fields.
use db_connections.Api.{CreateRequest}
use db_connections.Prelude.{[], false, none, some, ◌∷◌}
use db_connections.Projection.{BrokenPublicConnectionView, PublicConnectionView}
use db_connections.Tests.Data.{model_of}
use db_connections.Value.{null, str}

abbrev request : CreateRequest
request = record {
  name = "main";
  kind = "sql";
  type = "postgresql";
  driver = none;
  driver_options = none;
  properties = ("host", str "db") ∷ [];
  secrets = [];
  labels = [];
  metadata = [];
  extra_fields = ("region", str "eu") ∷ ("extra", null) ∷ [];
}

-- a connection that was created with an extra field "id"
abbrev shadowed : PublicConnectionView
shadowed = record {
  id = "c1";
  name = some "main";
  kind = "sql";
  type = "postgresql";
  driver = none;
  driver_options = none;
  properties = model_of "app:PgProperties" false [];
  labels = [];
  metadata = [];
  created_at = 7;
  updated_at = 7;
  deleted_at = none;
  extra = ("id", str "c2") ∷ [];
}

abbrev unreadable : BrokenPublicConnectionView
unreadable = record {
  id = "c1";
  name = some "main";
  kind = "sql";
  type = "unknown";
  driver = none;
  labels = [];
  metadata = [];
  created_at = 7;
  updated_at = 7;
  deleted_at = none;
  extra = [];
  issues = [];
  raw_properties = null;
  raw_driver_options = null;
  raw_secrets = null;
  state = "invalid";
}
