-- ===== src/Compat/RowModel.antt =====
-- compat/routes.py: the rows that payloads become, in the class of rows that SQLModel makes.
use Prim.Native.Nat.{◌-◌}
use db_connections.Compat.Statements.{Clause, ExtensionConfig, TableRow, User, owner_clauses}
use db_connections.Dict.{Dict, contains, insert, update}
use db_connections.Errors.{Error, other_error}
use db_connections.Int.{negsuc, pos, ℤ}
use db_connections.Prelude.{
  List, Option, String, [], any, if◌then◌else◌, length, none, some, suc, zero, ℕ, ◌++◌, ◌∷◌,
}
use db_connections.Result.{Result, err, ◌>>=◌}
use db_connections.Value.{Value}

-- a request's payload: its dumps, whole and of the fields that are set, and its properties
pub record RoutePayload : Type 0 where
  pub dump : Dict Value
  pub set_fields : Dict Value
  pub connection_properties : Option Value

-- the class of rows, which SQLModel and pydantic make: construction, `model_validate`,
-- `sqlmodel_update`, and `model_dump` of the fields that are set, but the identifier
pub record RowModel : Type 0 where
  pub new_row : Dict Value → Result TableRow
  pub model_validate : Dict Value → Result TableRow
  pub sqlmodel_update : Dict Value → TableRow → Result TableRow
  pub dump_set : TableRow → Dict Value
  -- how a value is formatted in a text
  pub show : Value → String

-- `rows[:n]`
unfoldable pub take_rows : ℕ → List TableRow → List TableRow
take_rows zero rows = []
take_rows (suc n) [] = []
take_rows (suc n) (r ∷ rows) = r ∷ take_rows n rows

unfoldable pub slice : ℤ → List TableRow → List TableRow
slice (pos n) rows = take_rows n rows
slice (negsuc n) rows = take_rows (length rows - suc n) rows

-- the rows of a listing, not more than `MAX_CONNECTIONS`, unless that is `None`
unfoldable pub limited : Option ℤ → List TableRow → List TableRow
limited none rows = rows
limited (some n) rows = slice n rows

-- a key that is given twice in a call is a `TypeError`
abbrev pub keyword_error : Error
keyword_error = other_error "TypeError" "got multiple values for keyword argument"

module _ (config : ExtensionConfig) (model : RowModel) where
  -- the row that `create_db_connection` makes
  unfoldable pub created_row : User → RoutePayload → Result TableRow
  created_row user payload =
      if config.use_auth
      then (owner_clauses config.db_connection_to_user_fks_mapping user >>= λ owner.
          elim payload.connection_properties [
            | none ↦ err (other_error "AttributeError" "connection_properties")
            | some p ↦ model.new_row (update (insert "connection_properties" p payload.dump) owner)
          ])
      else model.model_validate payload.dump

  -- the row that `upsert_db_connection` makes of the payload
  unfoldable pub upserted_row : User → RoutePayload → Result TableRow
  upserted_row user payload =
      if config.use_auth
      then (owner_clauses config.db_connection_to_user_fks_mapping user >>= λ owner.
          if any (λ (c : Clause). contains c.0 payload.dump) owner
          then err keyword_error
          else model.new_row (payload.dump ++ owner))
      else model.model_validate payload.dump
