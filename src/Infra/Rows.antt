-- ===== src/Infra/Rows.antt =====
-- infra/models.py: a row of the connections table, as the repository selects it. JSON columns hold
-- values; a row of another program's making may hold any.
use db_connections.Domain.{ConnectionDraft, Time, of_optional_dict}
use db_connections.Infra.Encryption.{EncryptionProvider}
use db_connections.Infra.OptionsColumn.{process_bind_param}
use db_connections.Prelude.{Option, String}
use db_connections.Result.{Result, ok, ◌>>=◌}
use db_connections.Value.{Value}

pub record Row : Type 0 where
  pub id : String
  pub name : Option String
  pub kind : String
  pub type : String
  pub driver : Option String
  pub driver_options_json : Value
  pub properties_json : Value
  pub secrets_ciphertext : Option String
  pub labels_json : Value
  pub metadata_json : Value
  pub extra_json : Value
  pub created_at : Time
  pub updated_at : Time
  pub deleted_at : Option Time

-- the values of an `INSERT` or `UPDATE` that come from a draft, with the secrets encrypted and the
-- driver options bound
pub record Columns : Type 0 where
  pub draft : ConnectionDraft
  pub secrets_ciphertext : String
  pub driver_options_json : Value

-- encrypting the secrets, and binding the driver options when the statement is executed
unfoldable pub columns_of : EncryptionProvider → ConnectionDraft → Result Columns
columns_of provider draft = do
  ciphertext ← provider.encrypt (of_optional_dict draft.secrets)
  options ← process_bind_param draft.driver_options
  ok (record { draft = draft; secrets_ciphertext = ciphertext; driver_options_json = options })
