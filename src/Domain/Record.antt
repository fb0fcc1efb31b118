-- ===== src/Domain/Record.antt =====
-- domain/entities/record.py: stored connections as they are read back.
use db_connections.Dict.{Dict}
use db_connections.Domain.Entities.{ConnectionEnvelope}
use db_connections.Prelude.{Bool, List, Option, String, any, ℕ, ◌&&◌, ◌==◌}
use db_connections.Value.{Value}

-- `StoredConnectionIssue`
pub record StoredConnectionIssue : Type 0 where
  pub field : String
  pub code : String
  pub message : String
  pub details : Dict Value

-- timestamps are only stored and passed on
abbrev pub Time : Type 0
Time = ℕ

pub record ConnectionRecord : Type 0 where
  pub envelope : ConnectionEnvelope
  pub open envelope use *
  pub id : String
  pub created_at : Time
  pub updated_at : Time
  pub deleted_at : Option Time
  pub read_issues : List StoredConnectionIssue
  pub raw_properties : Value
  pub raw_driver_options : Value
  pub raw_secrets : Value

-- `record.has_read_issue(code, field_name=field)`
unfoldable pub has_read_issue : ConnectionRecord → String → String → Bool
has_read_issue r code field_name =
    any (λ (i : StoredConnectionIssue). i.code == code && i.field == field_name) r.read_issues
