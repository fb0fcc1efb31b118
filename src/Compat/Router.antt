-- ===== src/Compat/Router.antt =====
-- compat/router.py, with compat/utils/sa.py: what setting up a router leaves in
-- compat/extension_config.py, which all routers of a process share, and the routes it adds.
pub mod Sharing
use db_connections.Compat.Statements.{ExtensionConfig, User}
use db_connections.Dict.{Dict, insert}
use db_connections.Errors.{Error, other_error}
use db_connections.Int.{ℤ}
use db_connections.Prelude.{
  Bool, List, Option, String, [], arith, false, if◌then◌else◌, inl, inr, is_nonempty, none, quote,
  refl, some, true, truthy, ℕ, ◌==◌, ◌∷◌, ◌≡◌,
}
use db_connections.Result.{Result, Result-cases, err, is_err, ok}

-- a foreign key of a table: its column, and the column and table it refers to
pub record ForeignKey : Type 0 where
  pub local_column : String
  pub remote_column : String
  pub remote_table : String

-- the constraints of a table: those on foreign keys with their elements, and others
pub data Constraint : Type 0 where
  foreign_key_constraint : List ForeignKey → Constraint
  other_constraint : Constraint

-- the inner loop of `get_fk_to_remote_mapping`
unfoldable pub map_elements : String → List ForeignKey → Dict String → Dict String
map_elements to_table [] mapping_ = mapping_
map_elements to_table (e ∷ elements) mapping_ = map_elements to_table elements (
    if e.remote_table == to_table then insert e.local_column e.remote_column mapping_ else mapping_)

-- `get_fk_to_remote_mapping`
unfoldable pub get_fk_to_remote_mapping : List Constraint → String → Dict String → Dict String
get_fk_to_remote_mapping [] to_table mapping_ = mapping_
get_fk_to_remote_mapping (foreign_key_constraint elements ∷ constraints) to_table mapping_ =
    get_fk_to_remote_mapping constraints to_table (map_elements to_table elements mapping_)
get_fk_to_remote_mapping (other_constraint ∷ constraints) to_table mapping_ =
    get_fk_to_remote_mapping constraints to_table mapping_

-- `fernet_key`: nothing, a `Fernet`, which is an opaque handle, or the text of a key
pub data FernetKey : Type 0 where
  no_key : FernetKey
  fernet_object : ℕ → FernetKey
  key_text : String → FernetKey

-- the module's variables: those that requests read, the limit, the fernet and `GetUserDep`, as
-- whether it is a router's dependency; and the dependency that the signatures of compat/routes.py
-- hold, which is the one of the time of that module's import
pub record SharedConfig : Type 0 where
  pub extension : ExtensionConfig
  pub get_user_dep : Bool
  pub routes_dep : Option Bool
  pub max_connections : Option ℤ
  pub filters : List String
  pub fernet : Option ℕ

-- the arguments of a router, its model as its keys, attributes and constraints, and its user's model
-- as the name of its table
pub record RouterArguments : Type 0 where
  pub pk_fields : List String
  pub columns : List String
  pub constraints : List Constraint
  pub is_connection_model : Bool
  pub user_table : Option String
  pub has_get_user : Bool
  pub disable_pk_filtration : User → Result Bool
  pub fernet_key : FernetKey
  pub max_connections : Option ℤ
  pub filters : List String

pub record Route : Type 0 where
  pub path : String
  pub endpoint : String
  pub method : String

-- `"/".join(f"{{{field_name}}}" for field_name in pk_fields)`
unfoldable pub join_fields : List String → String
join_fields [] = ""
join_fields (f ∷ fields) =
    let rest = join_fields fields in
    if is_nonempty fields then quote (quote "{" f "}") "/" rest else quote "{" f "}"

abbrev route_of : String → String → String → Route
route_of path endpoint method = record { path = path; endpoint = endpoint; method = method }

-- `add_db_conn_routes`
unfoldable pub db_conn_routes : String → List Route
db_conn_routes pks_path =
    route_of "/check-connection" "check_db_connection" "POST"
    ∷ route_of "/check-connection/{db_connection_id}" "check_db_connection_by_id" "POST"
    ∷ route_of "" "get_db_connections" "GET"
    ∷ route_of pks_path "get_db_connection" "GET"
    ∷ route_of "" "create_db_connection" "POST"
    ∷ route_of pks_path "update_db_connection" "PATCH"
    ∷ route_of "" "upsert_db_connection" "PUT"
    ∷ route_of pks_path "delete_db_connection" "DELETE"
    ∷ []

abbrev value_error : String → Error
value_error text_ = other_error "ValueError" text_

-- the fernet of a key; `Fernet(key)` may raise
abbrev pub fernet_of : (String → Result ℕ) → FernetKey → Result (Option ℕ)
fernet_of new_fernet no_key = ok none
fernet_of new_fernet (fernet_object f) = ok (some f)
fernet_of new_fernet (key_text key) =
    if truthy key then (elim (new_fernet key) [ ok f ↦ ok (some f) | err e ↦ err e ]) else ok none

-- the first assignments of `__init__`
abbrev pub assigned : RouterArguments → SharedConfig → SharedConfig
assigned a config = record config {
  extension = record config.extension {
    disable_pk_filtration = a.disable_pk_filtration;
    columns = a.columns;
  };
  max_connections = a.max_connections;
  filters = a.filters;
}

-- the fernet and the keys
abbrev pub keyed : RouterArguments → Option ℕ → SharedConfig → SharedConfig
keyed a fernet config = record config {
  fernet = fernet;
  extension = record config.extension { db_connection_pks = a.pk_fields };
}

-- the branches on the user's model and dependency: what they raise, and what they leave
unfoldable pub set_auth : RouterArguments → SharedConfig → Result (Unit {0}) × SharedConfig
set_auth a config = elim a.user_table [
  | some t ↦
      if a.has_get_user
      then (
        ok tt,
        record config {
          get_user_dep = true;
          extension = record config.extension {
            db_connection_to_user_fks_mapping = get_fk_to_remote_mapping a.constraints t [];
            use_auth = true;
          };
        },
      )
      else (err (value_error "'user_model' provided without 'get_user_dependency'."), config)
  | none ↦
      if a.has_get_user
      then (err (value_error "'get_user_dependency' provided without 'user_model'."), config)
      else (ok tt, config)
]

-- `from . import routes`, which runs that module once
unfoldable pub import_routes : SharedConfig → SharedConfig
import_routes config = elim config.routes_dep [
  | none ↦ record config { routes_dep = some config.get_user_dep }
  | some dep ↦ config
]

-- the user that a request brings to a route: what the dependency in its signature answers, which is
-- `Undefined` for that of the module
unfoldable pub request_user : SharedConfig → User → User
request_user config user = elim config.routes_dep [
  | none ↦ none
  | some dep ↦ if dep then user else none
]

pub request_user-undefined :
    (config : SharedConfig) (user : User)
    → config.routes_dep ≡ some false
    → request_user config user ≡ none
unfolding request_user
request_user-undefined config user h = rw h refl

module _ (new_fernet : String → Result ℕ) where
  -- `DBConnectionAPIRouter(...)`: the routes that it adds
  unfoldable pub new_router : RouterArguments → SharedConfig → Result (List Route) × SharedConfig
  new_router a config = elim (fernet_of new_fernet a.fernet_key) [
    | err e ↦ (err e, assigned a config)
    | ok fernet ↦
        let (x, config') = set_auth a (keyed a fernet (assigned a config)) in
        elim x [
          | err e ↦ (err e, config')
          | ok u ↦
              if a.is_connection_model
              then (
                ok (db_conn_routes (quote "/" (join_fields a.pk_fields) "")),
                import_routes config',
              )
              else (err (other_error "TypeError" "is not a subclass of DBConnection"), config')
        ]
  ]

  -- A router that is made imports the routes' module, with the dependency of the first such router.
  pub new_router-routes_dep :
      (a : RouterArguments) (config : SharedConfig)
      → a.user_table ≡ none
      → is_err (new_router a config).0 ≡ false
      → config.routes_dep ≡ none
      → config.get_user_dep ≡ false
      → (new_router a config).1.routes_dep ≡ some false
  unfolding new_router set_auth import_routes
  new_router-routes_dep a config alone made not_bound undefined =
      elim (Result-cases (fernet_of new_fernet a.fernet_key)) [
        | inl (f, e) ↦ ground arith
        | inr (x, e) ↦ ground arith
      ]

  -- The dependency of the routes stays.
  pub new_router-keeps_dep :
      (a : RouterArguments) (config : SharedConfig) (dep : Bool)
      → config.routes_dep ≡ some dep
      → (new_router a config).1.routes_dep ≡ some dep
  unfolding new_router set_auth import_routes
  new_router-keeps_dep a config dep bound =
      elim (Result-cases (fernet_of new_fernet a.fernet_key)) [
        | inl (f, e) ↦ ground arith
        | inr (x, e) ↦ ground arith
      ]

  -- A router with users that is made leaves what its requests read.
  pub new_router-auth :
      (a : RouterArguments) (config : SharedConfig) (t : String)
      → a.user_table ≡ some t
      → is_err (new_router a config).0 ≡ false
      → let after = (new_router a config).1.extension in
        (after.use_auth ≡ true)
        × (after.db_connection_to_user_fks_mapping ≡ get_fk_to_remote_mapping a.constraints t [])
        × (after.disable_pk_filtration ≡ a.disable_pk_filtration)
  unfolding new_router set_auth import_routes
  new_router-auth a config t users made = elim (Result-cases (fernet_of new_fernet a.fernet_key)) [
    | inl (f, e) ↦ (ground arith, ground arith, ground arith)
    | inr (x, e) ↦ absurd (ground arith)
  ]
