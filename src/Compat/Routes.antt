-- ===== src/Compat/Routes.antt =====
-- compat/routes.py, with the queries of compat/manager.py that it calls: the routes of the first
-- version, over a session and the manager that all requests share.
pub mod Ownership
use db_connections.Compat.Manager.{ConnectionManager, validate_max_connections}
use db_connections.Compat.Orm.{OrmSession}
use db_connections.Compat.RowModel.{RoutePayload, RowModel, created_row, limited, upserted_row}
use db_connections.Compat.Statements.{
  Clause, ExtensionConfig, TableRow, User, alive, key_clauses, scoped, scoped_last,
}
use db_connections.Dict.{Dict, insert}
use db_connections.Errors.{Error, other_error}
use db_connections.Exec.{Exec, lift, pure, ◌>>=◌, ◌>>◌}
use db_connections.Prelude.{
  Bool, List, Option, String, [], elem, if◌then◌else◌, length, none, quote, some, suc, true, truthy,
  ◌++◌, ◌∷◌,
}
use db_connections.Result.{err, ok}
use db_connections.Value.{Value, bool, is_null, str}

-- `DBConnectionNotFound(**kwargs)`: a key that is `None` is not named
unfoldable pub detail_list : (Value → String) → Dict Value → String
detail_list show [] = ""
detail_list show ((k, v) ∷ kwargs) =
    let rest = detail_list show kwargs in
    if is_null v
    then rest
    else if truthy rest
    then quote (quote k "=" (show v)) " " rest
    else quote k "=" (show v)

abbrev pub db_connection_not_found : (Value → String) → Dict Value → Error
db_connection_not_found show kwargs =
    other_error "DBConnectionNotFound"
      (quote "DB connection " (detail_list show kwargs) " not found")

-- `HTTPException(status_code=405, ...)`
abbrev pub too_many : Error
too_many =
    other_error "HTTPException" "Database connections more than allowed, use delete endpoint."

module _ {S : Type 0} (session : OrmSession S) (config : ExtensionConfig) (model : RowModel) where
  -- the state of a request: the shared manager and the session
  abbrev pub Desk : Type 0
  Desk = ConnectionManager × S

  abbrev pub on_session : {A : Type 0} → Exec S A → Exec Desk A
  on_session m (manager, s) = let (x, s') = m s in (x, (manager, s'))

  -- the filters that are set and name an attribute of the model
  unfoldable pub filter_clauses : Dict Value → List Clause
  filter_clauses [] = []
  filter_clauses ((attr_name, attr_value) ∷ filters) =
      let rest = filter_clauses filters in
      if is_null attr_value
      then rest
      else if elem attr_name config.columns
      then (attr_name, attr_value) ∷ rest
      else rest

  abbrev pub type_clauses : Option String → List Clause
  type_clauses none = []
  type_clauses (some t) = ("type", str t) ∷ []

  -- `ConnectionManager.get_db_connections`
  unfoldable pub get_db_connections : User → Option String → Dict Value → Exec S (List TableRow)
  get_db_connections user connection_type filters = lift (scoped_last config user) >>= λ owner.
      session.all_rows ((alive ∷ (type_clauses connection_type ++ filter_clauses filters)) ++ owner)

  -- `ConnectionManager.validate_max_connections`: the rows are counted if the cached count is
  -- `None` or 0
  unfoldable pub within_limit : User → Exec Desk Bool
  within_limit user (manager, s) = elim manager.active_connections [
    | some (suc n) ↦ let (b, manager') = validate_max_connections 0 manager in (ok b, (manager', s))
    | _ ↦
        let (x, s') = get_db_connections user none [] s in
        elim x [
          | ok rows ↦
              let (b, manager') = validate_max_connections (length rows) manager in
              (ok b, (manager', s'))
          | err e ↦ (err e, (manager, s'))
        ]
  ]

  -- `session.exec(...).first()`, and `DBConnectionNotFound` if there is none
  unfoldable pub found_or : Dict Value → List Clause → Exec S TableRow
  found_or kwargs clauses = session.first clauses >>= λ o. elim o [
    | none ↦ lift (err (db_connection_not_found model.show kwargs))
    | some row ↦ pure row
  ]

  -- the statement that finds a row by its keys among the user's own
  unfoldable pub find_own : User → Dict Value → Exec S TableRow
  find_own user kwargs = lift (scoped config user) >>= λ owner.
      found_or kwargs ((alive ∷ key_clauses config.db_connection_pks kwargs) ++ owner)

  -- `session.add(row)`, `session.commit()` and `session.refresh(row)`
  unfoldable pub save : TableRow → Exec S TableRow
  save row = session.add_row row >> session.commit >> session.refresh row

  -- the data of an update: what is set, with the properties as an object
  abbrev pub update_data : RoutePayload → Dict Value
  update_data payload = elim payload.connection_properties [
    | none ↦ payload.set_fields
    | some p ↦ insert "connection_properties" p payload.set_fields
  ]

  -- the route `get_db_connections`
  unfoldable pub list_connections_route :
      User → Option String → Dict Value → Exec Desk (List TableRow)
  list_connections_route user connection_type filters (manager, s) =
      let (x, s') = get_db_connections user connection_type filters s in
      (
        elim x [ ok rows ↦ ok (limited manager.max_connections rows) | err e ↦ err e ],
        (manager, s'),
      )

  -- `get_db_connection`
  unfoldable pub get_connection_route : User → Dict Value → Exec S TableRow
  get_connection_route user kwargs = lift (scoped_last config user) >>= λ owner.
      found_or kwargs ((alive ∷ key_clauses config.db_connection_pks kwargs) ++ owner)

  -- `create_db_connection`
  unfoldable pub create_connection_route : User → RoutePayload → Exec Desk TableRow
  create_connection_route user payload = within_limit user >>= λ allowed.
      if allowed
      then on_session (lift (created_row config model user payload) >>= save)
      else lift (err too_many)

  -- `update_db_connection`
  unfoldable pub update_connection_route : User → Dict Value → RoutePayload → Exec Desk TableRow
  update_connection_route user kwargs payload = within_limit user >>= λ allowed.
      if allowed
      then on_session (
          find_own user kwargs >>= λ row.
          lift (model.sqlmodel_update (update_data payload) row) >>= λ row'.
          session.now >>= λ t. save (insert "updated_at" t row'))
      else lift (err too_many)

  -- `delete_db_connection`
  unfoldable pub delete_connection_route : User → Dict Value → Exec S TableRow
  delete_connection_route user kwargs =
      find_own user kwargs >>= λ row. save (insert "is_deleted" (bool true) row)

  -- the branches of `upsert_db_connection` on the row that exists
  unfoldable pub merge_existing : TableRow → Option TableRow → Exec S TableRow
  merge_existing row none = session.now >>= λ t. pure (insert "created_at" t row)
  merge_existing row (some existing) =
      lift (model.sqlmodel_update (model.dump_set row) existing) >>= λ row'.
      session.now >>= λ t. pure (insert "updated_at" t row')

  -- `upsert_db_connection`
  unfoldable pub upsert_connection_route : User → RoutePayload → Exec Desk TableRow
  upsert_connection_route user payload = within_limit user >>= λ allowed.
      if allowed
      then on_session (
          lift (upserted_row config model user payload) >>= λ row.
          session.first (alive ∷ key_clauses config.db_connection_pks row) >>= λ existing.
          merge_existing row existing >>= save)
      else lift (err too_many)

  -- `check_db_connection_by_id`: what the manager checks; the update of the row is not saved
  unfoldable pub check_by_id_route :
      {A : Type 0} → (TableRow → Exec S A) → User → Value → RoutePayload → Exec S A
  check_by_id_route check_connection user db_connection_id payload =
      lift (scoped config user) >>= λ owner.
      found_or (("connection_id", db_connection_id) ∷ [])
        ((("id", db_connection_id) ∷ alive ∷ []) ++ owner)
      >>= λ row. lift (model.sqlmodel_update (update_data payload) row) >>= check_connection
