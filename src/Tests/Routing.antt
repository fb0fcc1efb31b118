-- ===== src/Tests/Routing.antt =====
-- The theorems on the routes of the first version at rows in memory.
-- the rows are the state; what is added and committed takes the place of the row with its identifier
use db_connections.Compat.Manager.{ConnectionManager, new_manager}
use db_connections.Compat.Orm.{IsReading, OrmSession}
use db_connections.Compat.Router.{
  RouterArguments, SharedConfig, foreign_key_constraint, get_fk_to_remote_mapping, import_routes,
  map_elements, new_router, no_key, other_constraint, request_user, set_auth,
}
use db_connections.Compat.Router.Sharing.{late_users_fail}
use db_connections.Compat.Routes.{
  db_connection_not_found, delete_connection_route, filter_clauses, found_or, get_connection_route,
  get_db_connections, list_connections_route, update_connection_route,
}
use db_connections.Compat.Routes.Ownership.{shown_are_own, strangers_refused}
use db_connections.Compat.RowModel.{RoutePayload, RowModel, limited, slice, take_rows}
use db_connections.Compat.Statements.{
  ExtensionConfig, TableRow, User, meets, owner_clauses, scoped_last,
}
use db_connections.Dict.{Dict, erase, get, update}
use db_connections.Errors.{other_error}
use db_connections.Int.{pos, ℤ}
use db_connections.Prelude.{
  Bool, List, String, [], all, false, find_first, get_or, if◌then◌else◌, keep_if, none, refl, some,
  true, ℕ, ◌∷◌, ◌≡◌,
}
use db_connections.Result.{Result, err, is_err, ok}
use db_connections.Value.{Value, bool, int, null, value_eq}

abbrev same_id : TableRow → TableRow → Bool
same_id a b = value_eq (get_or (get "id" a) null) (get_or (get "id" b) null)

abbrev replaced : TableRow → List TableRow → List TableRow
replaced row [] = []
replaced row (r ∷ rows) = (if same_id row r then row else r) ∷ replaced row rows

abbrev row_session : OrmSession (List TableRow)
row_session = record {
  first = λ clauses s. (ok (find_first (meets clauses) s), s);
  all_rows = λ clauses s. (ok (keep_if (meets clauses) s), s);
  add_row = λ row s. (ok tt, replaced row s);
  commit = λ s. (ok tt, s);
  refresh = λ row s. (ok row, s);
  now = λ s. (ok (int (pos 5)), s);
}

row_session-IsReading : IsReading (λ s. s) row_session
row_session-IsReading = record { first_meets = λ cs s. refl; all_meet = λ cs s. refl }

abbrev row_of : ℤ → ℤ → Bool → TableRow
row_of i owner deleted =
    ("id", int (pos 1))
    ∷ ("slot", int i)
    ∷ ("user_id", int owner)
    ∷ ("is_deleted", bool deleted)
    ∷ []

-- slot 1 is user 7's, slot 2 is user 8's
abbrev rows : List TableRow
rows = row_of (pos 1) (pos 7) false ∷ row_of (pos 2) (pos 8) false ∷ []

abbrev config : ExtensionConfig
config = record {
  use_auth = true;
  disable_pk_filtration = λ user. ok false;
  db_connection_to_user_fks_mapping = ("user_id", "id") ∷ [];
  db_connection_pks = "slot" ∷ [];
  columns = "id" ∷ "slot" ∷ "user_id" ∷ "is_deleted" ∷ [];
}

abbrev model : RowModel
model = record {
  new_row = λ fields. ok fields;
  model_validate = λ fields. ok fields;
  sqlmodel_update = λ fields row. ok (update row fields);
  dump_set = λ row. erase "id" row;
  show = λ v. "?";
}

abbrev user_7 : User
user_7 = some (("id", int (pos 7)) ∷ [])

abbrev slot_2 : Dict Value
slot_2 = ("slot", int (pos 2)) ∷ []

abbrev payload : RoutePayload
payload = record { dump = slot_2; set_fields = slot_2; connection_properties = none }

abbrev manager : ConnectionManager
manager = new_manager (some (pos 3))

strangers_refused_example :
    let missing = db_connection_not_found (λ v. "?") slot_2 in
    let run =
      update_connection_route row_session config model user_7 slot_2 payload (manager, rows) in
    (get_connection_route row_session config model user_7 slot_2 rows ≡ (err missing, rows))
    × (delete_connection_route row_session config model user_7 slot_2 rows ≡ (err missing, rows))
    × (is_err run.0 ≡ true)
    × (run.1.1 ≡ rows)
unfolding owner_clauses value_eq
strangers_refused_example =
    strangers_refused row_session config model (λ s. s) row_session-IsReading user_7
      (("user_id", int (pos 7)) ∷ []) refl refl refl slot_2 payload manager rows refl

shown_are_own_example :
    (meets
        (("is_deleted", bool false) ∷ ("slot", int (pos 1)) ∷ ("user_id", int (pos 7)) ∷ [])
        (row_of (pos 1) (pos 7) false)
      ≡ true)
    × (all
          (meets (("is_deleted", bool false) ∷ ("user_id", int (pos 7)) ∷ []))
          (row_of (pos 1) (pos 7) false ∷ [])
        ≡ true)
unfolding owner_clauses value_eq get_connection_route list_connections_route get_db_connections
    found_or scoped_last limited slice take_rows filter_clauses
shown_are_own_example =
    shown_are_own row_session config model (λ s. s) row_session-IsReading user_7
      (("user_id", int (pos 7)) ∷ []) refl refl refl (("slot", int (pos 1)) ∷ []) none [] manager
      rows (row_of (pos 1) (pos 7) false) (row_of (pos 1) (pos 7) false ∷ []) refl refl

-- a router without users, then one with users whose table is "users"
abbrev without_users : RouterArguments
without_users = record {
  pk_fields = "slot" ∷ [];
  columns = config.columns;
  constraints =
      foreign_key_constraint
        (record { local_column = "user_id"; remote_column = "id"; remote_table = "users" } ∷ [])
      ∷ other_constraint
      ∷ [];
  is_connection_model = true;
  user_table = none;
  has_get_user = false;
  disable_pk_filtration = λ user. ok false;
  fernet_key = no_key;
  max_connections = none;
  filters = [];
}

abbrev with_users : RouterArguments
with_users = record without_users { user_table = some "users"; has_get_user = true }

abbrev fresh : SharedConfig
fresh = record {
  extension = record config { use_auth = false; db_connection_to_user_fks_mapping = [] };
  get_user_dep = false;
  routes_dep = none;
  max_connections = none;
  filters = [];
  fernet = none;
}

abbrev no_fernets : String → Result ℕ
no_fernets key = err (other_error "ValueError" key)

late_users_fail_example :
    let made = new_router no_fernets without_users fresh in
    let made' = new_router no_fernets with_users made.1 in
    get_connection_route row_session made'.1.extension model
      (request_user made'.1 user_7)
      slot_2
      rows
    ≡ (err (other_error "AttributeError" "id"), rows)
unfolding new_router set_auth import_routes get_fk_to_remote_mapping map_elements
late_users_fail_example =
    late_users_fail row_session model no_fernets without_users with_users fresh "users" "user_id"
      "id" [] user_7 slot_2 rows refl refl refl refl refl refl refl refl
