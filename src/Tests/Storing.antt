-- ===== src/Tests/Storing.antt =====
-- The theorems on the SQL storage at a table in memory, with a toy codec and cipher.
use Prim.Native.String.{◌++◌ as text_append}
use db_connections.Domain.{ConnectionRecord, absent, instance_of, to_draft}
use db_connections.Errors.{secret_decryption_failed}
use db_connections.Infra.Encryption.{
  EncryptionProvider, Fernet, Json, ReadsBack, fernet_decrypt, fernet_provider, no_op_decrypt,
  no_op_provider, providers-ReadsBack,
}
use db_connections.Infra.Mapper.{coerce_mapping, decode_driver_options, decode_secrets, to_record}
use db_connections.Infra.OptionsColumn.{
  Imports, model_class, partition_colon, process_bind_param, process_result-process_bind,
  process_result_value, resolve_model_ref,
}
use db_connections.Infra.Repository.{
  delete_existing, delete_record, get_record, new_row, update_and_fetch,
}
use db_connections.Infra.Repository.Laws.{get-delete, to_record-new_row}
use db_connections.Infra.Rows.{Row, columns_of}
use db_connections.Infra.UnitOfWork.{sql_uow, sql_uow-IsTransactional}
use db_connections.Prelude.{
  Option, String, [], false, if◌then◌else◌, none, refl, some, true, ◌==◌, ◌∷◌, ◌≡◌, ◌⊎◌,
}
use db_connections.Result.{err, ok, ◌>>=◌}
use db_connections.Service.Steps.{IsTransactional}
use db_connections.Tests.Data.{pg_connection, pg_options, pg_record, ssl_options, stored_draft}
use db_connections.Tests.Storage.{
  Table, saved_rows, table-IsFaithful, table-IsIsolated, table_session,
}
use db_connections.Value.{Value, bool, dict, end, field, of_dict, str}

-- a codec for one password
abbrev dumps_password : Value → String
dumps_password (dict (field k (str s) end)) = s
dumps_password v = ""

abbrev toy_json : Json
toy_json = record { dumps = dumps_password; loads = λ s. ok (dict (field "password" (str s) end)) }

-- a cipher that writes a star before the text
abbrev pub strip_star : String → Option String
strip_star String.[] = none
strip_star (String.◌∷◌ c s) = some s

abbrev pub toy_fernet : Fernet
toy_fernet = record { encrypt = λ s. text_append "*" s; decrypt = strip_star }

-- the same, but for one token that it refuses
abbrev picky_fernet : Fernet
picky_fernet = record toy_fernet { decrypt = λ s. if s == "expired" then none else strip_star s }

abbrev password : Value
password = dict (field "password" (str "hunter2") end)

providers-ReadsBack_example :
    ReadsBack (no_op_provider toy_json) password
    × ReadsBack (fernet_provider toy_json picky_fernet) password
    × (no_op_decrypt toy_json none ≡ ok (dict end))
    × (no_op_decrypt toy_json (some "") ≡ ok (dict end))
    × (fernet_decrypt toy_json picky_fernet none ≡ ok (dict end))
    × (fernet_decrypt toy_json picky_fernet (some "") ≡ ok (dict end))
    × (fernet_decrypt toy_json picky_fernet (some "expired")
        ≡ err (secret_decryption_failed "Could not decrypt connection secrets." []))
providers-ReadsBack_example =
    providers-ReadsBack toy_json picky_fernet password "expired"
      (record {
        loads-dumps = refl;
        dumps_nonempty = refl;
        decrypt-encrypt = refl;
        encrypt_nonempty = refl;
      })
      refl refl

-- the one class that can be imported
abbrev pub imports : Imports
imports module_name path = ok (model_class pg_options)

process_result-process_bind_example :
    ((process_bind_param (instance_of ssl_options) >>= process_result_value imports)
      ≡ ok (some ssl_options))
    × ((process_bind_param absent >>= process_result_value imports) ≡ ok none)
unfolding resolve_model_ref partition_colon
process_result-process_bind_example =
    process_result-process_bind imports ssl_options pg_options refl refl refl refl

abbrev pub provider : EncryptionProvider
provider = fernet_provider toy_json toy_fernet

to_record-new_row_example :
    (columns_of provider (to_draft pg_connection) >>= λ c.
    ok (to_record provider imports (new_row "c1" 7 c)))
    ≡ ok (record pg_record { envelope = to_draft pg_connection })
unfolding fernet_decrypt process_bind_param process_result_value resolve_model_ref partition_colon
to_record-new_row_example =
    to_record-new_row provider imports "c1" 7 "main" pg_connection refl refl refl refl

-- the table with the stored draft
abbrev pg_row : Row
pg_row = new_row "c1" 7 (record {
  draft = stored_draft;
  secrets_ciphertext = "*hunter2";
  driver_options_json = of_dict (
      ("model_ref", str "app.options:PgOptions")
      ∷ ("data", of_dict (("ssl", bool true) ∷ []))
      ∷ []);
})

abbrev pub filled_table : Table
filled_table = record {
  rows = ("c1", pg_row) ∷ [];
  saved = ("c1", pg_row) ∷ [];
  clock = 9;
  ids = [];
  is_locked = false;
}

abbrev pub deleted_record : ConnectionRecord
deleted_record = record pg_record { deleted_at = some 9; updated_at = 9 }

get-delete_example :
    let s' = (delete_record table_session provider imports "c1" filled_table).1 in
    (get_record table_session provider imports "c1" s' ≡ (ok (some deleted_record), s'))
    × (deleted_record ≡ record pg_record { deleted_at = some 9; updated_at = 9 })
    × ((j : String)
        → (("c1" == j) ≡ true)
          ⊎ (table_session.select_by_id j s' ≡ table_session.select_by_id j filled_table))
unfolding delete_record delete_existing update_and_fetch get_record to_record coerce_mapping
    decode_secrets decode_driver_options fernet_decrypt process_result_value resolve_model_ref
    partition_colon
get-delete_example =
    get-delete table_session provider imports "c1" pg_record deleted_record filled_table
      table-IsFaithful refl refl

sql_uow-IsTransactional_example :
    IsTransactional saved_rows (sql_uow table_session provider imports)
sql_uow-IsTransactional_example =
    sql_uow-IsTransactional saved_rows table_session provider imports table-IsIsolated
