-- ===== src/Infra/Repository.antt =====
-- infra/repositories.py: `DefaultSQLModelConnectionRepository` over a session.
pub mod Laws
pub mod Listing
pub mod Replacing
use db_connections.Dict.{Dict, get}
use db_connections.Domain.{
  ConnectionDraft, ConnectionListQuery, ConnectionRecord, Time, of_optional_dict,
}
use db_connections.Errors.{other_error}
use db_connections.Exec.{Exec, lift, pure, ◌>>=◌, ◌>>◌}
use db_connections.Infra.Encryption.{EncryptionProvider}
use db_connections.Infra.Mapper.{to_record}
use db_connections.Infra.OptionsColumn.{Imports}
use db_connections.Infra.Rows.{Columns, Row, columns_of}
use db_connections.Infra.Session.{Session}
use db_connections.Prelude.{
  Bool, List, Option, String, [], all, get_or, is_none, keep_if, map, map_option, none, some, true,
  ◌&&◌, ◌==◌, ◌||◌,
}
use db_connections.Result.{Result, err, ok}
use db_connections.Service.{Repository, create}
use db_connections.Value.{Value, list, null, value_eq}

-- `values.get(key) == value` for every filter
unfoldable pub matches_mapping_filters : Dict Value → Dict Value → Bool
matches_mapping_filters values_ filters =
    all (λ kv. value_eq (get_or (get kv.0 values_) null) kv.1) filters

-- a record's field; the mapper leaves no `None`
abbrev pub field_of : Option (Dict Value) → Dict Value
field_of d = get_or d []

-- `_matches_filters`
unfoldable pub matches_filters : ConnectionRecord → ConnectionListQuery → Bool
unfolding matches_mapping_filters
matches_filters r query =
    matches_mapping_filters (field_of r.labels) query.label_filters
    && (matches_mapping_filters (field_of r.metadata) query.metadata_filters
        && matches_mapping_filters (field_of r.extra) query.extra_filters)

-- a `where` clause that is added if the query names a value
abbrev pub equals_if : Option String → String → Bool
equals_if none s = true
equals_if (some t) s = s == t

-- the inserted row
abbrev pub new_row : String → Time → Columns → Row
new_row connection_id now c = record {
  id = connection_id;
  name = c.draft.name;
  kind = c.draft.kind;
  type = c.draft.type;
  driver = c.draft.driver;
  driver_options_json = c.driver_options_json;
  properties_json = of_optional_dict c.draft.properties;
  secrets_ciphertext = some c.secrets_ciphertext;
  labels_json = of_optional_dict c.draft.labels;
  metadata_json = of_optional_dict c.draft.metadata;
  extra_json = of_optional_dict c.draft.extra;
  created_at = now;
  updated_at = now;
  deleted_at = none;
}

-- the updated row
abbrev pub replaced_row : Time → Columns → Row → Row
replaced_row now c row = record row {
  name = c.draft.name;
  kind = c.draft.kind;
  type = c.draft.type;
  driver = c.draft.driver;
  driver_options_json = c.driver_options_json;
  properties_json = of_optional_dict c.draft.properties;
  secrets_ciphertext = some c.secrets_ciphertext;
  labels_json = of_optional_dict c.draft.labels;
  metadata_json = of_optional_dict c.draft.metadata;
  extra_json = of_optional_dict c.draft.extra;
  updated_at = now;
}

-- the row marked deleted
abbrev pub deleted_row : Time → Row → Row
deleted_row now row = record row { deleted_at = some now; updated_at = now }

module _ {S : Type 0} (session : Session S) (provider : EncryptionProvider)
    (imports : Imports) where
  -- the conjunction of the `where` clauses of `list`
  unfoldable pub where_clauses : ConnectionListQuery → Row → Bool
  where_clauses query row =
      (query.include_deleted || is_none row.deleted_at)
      && (equals_if query.kind row.kind
          && (equals_if query.type row.type
              && elim query.name [ none ↦ true | some n ↦ session.name_contains n row.name ]))

  -- `_fetch_row` and `_to_record`
  abbrev pub fetch_row : String → Exec S (Option Row)
  fetch_row connection_id s = (ok (session.select_by_id connection_id s), s)

  abbrev pub to_record_of : Row → ConnectionRecord
  to_record_of = to_record provider imports

  -- `assert row is not None`
  abbrev pub assert_row : Option Row → Result ConnectionRecord
  assert_row none = err (other_error "AssertionError" "")
  assert_row (some row) = ok (to_record_of row)

  -- executing a statement, flushing, and reading the row it wrote
  unfoldable pub insert_and_fetch : Row → Exec S ConnectionRecord
  insert_and_fetch row = do
    session.insert_row row
    created ← fetch_row row.id
    lift (assert_row created)

  unfoldable pub update_and_fetch : String → (Row → Row) → Exec S ConnectionRecord
  update_and_fetch connection_id f = do
    session.update_row connection_id f
    updated ← fetch_row connection_id
    lift (assert_row updated)

  unfoldable pub create_record : ConnectionDraft → Exec S ConnectionRecord
  create_record draft = do
    now ← session.now
    connection_id ← session.uuid4
    columns ← lift (columns_of provider draft)
    insert_and_fetch (new_row connection_id now columns)

  unfoldable pub list_records : ConnectionListQuery → Exec S (List ConnectionRecord)
  list_records query s = (
    ok (
        keep_if (λ r. matches_filters r query)
          (map to_record_of (session.select_where (where_clauses query) s))),
    s,
  )

  unfoldable pub get_record : String → Exec S (Option ConnectionRecord)
  get_record connection_id = do row ← fetch_row connection_id; pure (map_option to_record_of row)

  -- `replace` of a row that is there
  unfoldable pub replace_existing : String → ConnectionDraft → Exec S (Option ConnectionRecord)
  replace_existing connection_id draft = do
    columns ← lift (columns_of provider draft)
    now ← session.now
    r ← update_and_fetch connection_id (replaced_row now columns)
    pure (some r)

  unfoldable pub replace_record : String → ConnectionDraft → Exec S (Option ConnectionRecord)
  replace_record connection_id draft = do
    existing ← fetch_row connection_id
    elim existing [ none ↦ pure none | some row ↦ replace_existing connection_id draft ]

  -- `delete` of a row that is there
  unfoldable pub delete_existing : String → Exec S (Option ConnectionRecord)
  delete_existing connection_id = do
    now ← session.now
    r ← update_and_fetch connection_id (deleted_row now)
    pure (some r)

  unfoldable pub delete_record : String → Exec S (Option ConnectionRecord)
  delete_record connection_id = do
    existing ← fetch_row connection_id
    elim existing [ none ↦ pure none | some row ↦ delete_existing connection_id ]

  -- the repository that a unit of work offers
  abbrev pub sql_repository : Repository S
  sql_repository = record {
    create = create_record;
    list = list_records;
    get = get_record;
    replace = replace_record;
    delete = delete_record;
  }
