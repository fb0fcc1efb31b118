-- ===== src/Infra/Mapper.antt =====
-- infra/record_mapper.py: `StoredConnectionRecordMapper`. A column that cannot be read becomes an
-- issue of the record, never an error.
use db_connections.Dict.{Dict}
use db_connections.Domain.{ConnectionRecord, Model, StoredConnectionIssue, of_model}
use db_connections.Errors.{Error, message}
use db_connections.Infra.Encryption.{EncryptionProvider}
use db_connections.Infra.OptionsColumn.{Imports, process_result_value}
use db_connections.Infra.Rows.{Row}
use db_connections.Prelude.{
  Bool, List, Option, String, [], all, false, if◌then◌else◌, none, not, refl, some, true, ◌&&◌,
  ◌++◌, ◌||◌, ◌∷◌, ◌≡◌,
}
use db_connections.Projection.{View, broken, public}
use db_connections.Projection.Parts.{IsReadable}
use db_connections.Result.{Result, err, is_err, ok}
use db_connections.Value.{Fields, Value, dict, is_str, items, null, str, type_name}

-- what reading a column gives: its content, the raw value to show, and the issues so far
pub record Reading (A : Type 0) : Type 0 where
  pub content : A
  pub raw : Value
  pub issues : List StoredConnectionIssue

abbrev reading : {A : Type 0} → A → Value → List StoredConnectionIssue → Reading A
reading a v is = record { content = a; raw = v; issues = is }

abbrev issue : String → String → String → Dict Value → StoredConnectionIssue
issue f c m d = record { field = f; code = c; message = m; details = d }

-- the class name that `_coerce_mapping` and `_decode_secrets` report
abbrev raw_type : Value → Dict Value
raw_type v = ("raw_type", str (type_name v)) ∷ []

-- `{"error": str(exc)}`
abbrev error_text : Error → Dict Value
error_text e = ("error", str (message e)) ∷ []

options_reading :
    Value → List StoredConnectionIssue → Result (Option Model) → Reading (Option Model)
options_reading raw is (ok o) = reading o null is
options_reading raw is (err e) = reading none raw (
    is
    ++ issue "driver_options" "invalid_driver_options"
        "Stored connection driver options payload is invalid." (error_text e)
      ∷ [])

-- `_decode_driver_options`
unfoldable pub decode_driver_options :
    Imports → Value → List StoredConnectionIssue → Reading (Option Model)
unfolding options_reading
decode_driver_options imports null is = reading none null is
decode_driver_options imports raw is = options_reading raw is (process_result_value imports raw)

secrets_reading : List StoredConnectionIssue → Result Value → Reading (Dict Value)
secrets_reading is (err e) = reading [] null (
    is
    ++ issue "secrets" "unreadable_secrets" "Stored connection secrets could not be decrypted."
        (error_text e)
      ∷ [])
secrets_reading is (ok (dict fs)) = reading (items fs) null is
secrets_reading is (ok decoded) = reading [] decoded (
    is
    ++ issue "secrets" "invalid_secrets" "Stored connection secrets payload is invalid."
        (raw_type decoded)
      ∷ [])

-- `_decode_secrets`
unfoldable pub decode_secrets :
    EncryptionProvider → Option String → List StoredConnectionIssue → Reading (Dict Value)
unfolding secrets_reading
decode_secrets provider ciphertext is = secrets_reading is (provider.decrypt ciphertext)

-- `_coerce_mapping`: with `value_type=str` every value must be a text
unfoldable pub coerce_mapping :
    Value → String → String → String → Bool → List StoredConnectionIssue → Reading (Dict Value)
coerce_mapping (dict fs) field_name code_ message_ texts_only is =
    if texts_only && not (all (λ kv. is_str kv.1) (items fs))
    then reading [] (dict fs) (is ++ issue field_name code_ message_ (raw_type (dict fs)) ∷ [])
    else reading (items fs) null is
coerce_mapping raw field_name code_ message_ texts_only is =
    reading [] raw (is ++ issue field_name code_ message_ (raw_type raw) ∷ [])

-- `str(x)` of an optional text
abbrev text_of : Option String → String
text_of none = "None"
text_of (some s) = s

-- a dictionary, whose values are texts if that is asked
abbrev pub is_mapping : Bool → Value → Bool
is_mapping texts (dict fs) = not texts || all (λ kv. is_str kv.1) (items fs)
is_mapping texts _ = false

abbrev pub is_public : View → Bool
is_public (public v) = true
is_public (broken v) = false

module _ (provider : EncryptionProvider) (imports : Imports) where
  -- `to_record`, its columns read in the order of the source
  unfoldable pub to_record : Row → ConnectionRecord
  to_record row =
      let options = decode_driver_options imports row.driver_options_json [] in
      let properties =
        coerce_mapping row.properties_json "properties" "invalid_properties"
          "Stored connection properties payload is invalid." false options.issues in
      let secrets = decode_secrets provider row.secrets_ciphertext properties.issues in
      let labels =
        coerce_mapping row.labels_json "labels" "invalid_labels"
          "Stored connection labels payload is invalid." true secrets.issues in
      let metadata =
        coerce_mapping row.metadata_json "metadata" "invalid_metadata"
          "Stored connection metadata payload is invalid." false labels.issues in
      let extra =
        coerce_mapping row.extra_json "extra" "invalid_extra"
          "Stored connection extra payload is invalid." false metadata.issues in
      record {
        envelope = record {
          name = some (text_of row.name);
          kind = row.kind;
          type = row.type;
          driver = row.driver;
          driver_options = of_model options.content;
          properties = some properties.content;
          secrets = some secrets.content;
          labels = some labels.content;
          metadata = some metadata.content;
          extra = some extra.content;
        };
        id = row.id;
        created_at = row.created_at;
        updated_at = row.updated_at;
        deleted_at = row.deleted_at;
        read_issues = extra.issues;
        raw_properties = properties.raw;
        raw_driver_options = options.raw;
        raw_secrets = secrets.raw;
      }

  -- a record that was read has dictionaries in its descriptive fields, whatever the row holds
  pub to_record-IsReadable : (row : Row) → IsReadable (to_record row)
  unfolding to_record
  to_record-IsReadable row = refl

  -- every column can be read: the options are loaded, the secrets decrypt to a dictionary, and the
  -- others are dictionaries, the labels of texts
  abbrev pub HasReadableColumns : Row → Type 0
  HasReadableColumns row =
      (is_err (process_result_value imports row.driver_options_json) ≡ false)
      × (is_mapping false row.properties_json ≡ true)
      × ((fs : Fields) × (provider.decrypt row.secrets_ciphertext ≡ ok (dict fs)))
      × (is_mapping true row.labels_json ≡ true)
      × (is_mapping false row.metadata_json ≡ true)
      × (is_mapping false row.extra_json ≡ true)
