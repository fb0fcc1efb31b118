-- ===== src/Tests/Listing.antt =====
-- The theorem on listings at a table with three rows.
use db_connections.Dict.{values}
use db_connections.Domain.{ConnectionListQuery, default_query}
use db_connections.Infra.Encryption.{Json, no_op_provider}
use db_connections.Infra.Mapper.{coerce_mapping, to_record}
use db_connections.Infra.OptionsColumn.{Imports, other_object}
use db_connections.Infra.Repository.{list_records}
use db_connections.Infra.Repository.Listing.{list_records_lem}
use db_connections.Infra.Rows.{Row}
use db_connections.Infra.Session.{IsSelecting}
use db_connections.Prelude.{[], none, refl, some, ◌∷◌, ◌≡◌}
use db_connections.Result.{ok}
use db_connections.Tests.Storage.{Table, empty_table, table_session}
use db_connections.Value.{dict, end, null, of_dict, str, value_eq}

abbrev no_json : Json
no_json = record { dumps = λ v. "{}"; loads = λ s. ok (dict end) }

abbrev no_imports : Imports
no_imports module_name path = ok other_object

abbrev row : Row
row = record {
  id = "c1";
  name = some "main";
  kind = "sql";
  type = "postgresql";
  driver = none;
  driver_options_json = null;
  properties_json = dict end;
  secrets_ciphertext = none;
  labels_json = of_dict (("team", str "core") ∷ []);
  metadata_json = dict end;
  extra_json = dict end;
  created_at = 7;
  updated_at = 7;
  deleted_at = none;
}

abbrev core_team : ConnectionListQuery
core_team = record default_query { label_filters = ("team", str "core") ∷ [] }

-- the table holds the row, another team's row and a row that is deleted; only the first is listed
abbrev other_team : Row
other_team = record row { id = "c2"; labels_json = of_dict (("team", str "data") ∷ []) }

abbrev deleted_one : Row
deleted_one = record row { id = "c3"; deleted_at = some 8 }

abbrev three_rows : Table
three_rows = record empty_table {
  rows = ("c1", row) ∷ ("c2", other_team) ∷ ("c3", deleted_one) ∷ [];
}

table-IsSelecting : IsSelecting (λ (t : Table). values t.rows) table_session
table-IsSelecting = record { select-where = λ p s. refl }

list_records_example :
    list_records table_session (no_op_provider no_json) no_imports core_team three_rows
    ≡ (ok (to_record (no_op_provider no_json) no_imports row ∷ []), three_rows)
unfolding to_record coerce_mapping value_eq
list_records_example =
    list_records_lem table_session (no_op_provider no_json) no_imports core_team
      (λ (t : Table). values t.rows) three_rows table-IsSelecting
