-- ===== src/Compat/Statements.antt =====
-- compat/: what the statements of the manager (compat/manager.py) and of the routes
-- (compat/routes.py) filter by.
use db_connections.Dict.{Dict, get}
use db_connections.Errors.{other_error}
use db_connections.Prelude.{
  Bool, List, Option, String, [], all, arith, false, get_or, if◌then◌else◌, none, refl, some, ◌&&◌,
  ◌++◌, ◌∷◌, ◌≡◌,
}
use db_connections.Result.{Result, err, ok, ◌>>=◌}
use db_connections.Value.{Value, bool, null, value_eq}

-- a row as its columns, in which connection properties stand as their fields
abbrev pub TableRow : Type 0
TableRow = Dict Value

-- one test of `where`: `Model.column == value`, where `== None` is SQL's `IS NULL`
abbrev pub Clause : Type 0
Clause = String × Value

abbrev pub meets : List Clause → TableRow → Bool
meets clauses row = all (λ (c : Clause). value_eq (get_or (get c.0 row) null) c.1) clauses

-- who asks: `None` and `Undefined` have no attributes
abbrev pub User : Type 0
User = Option (Dict Value)

-- what the router (compat/router.py) leaves in compat/extension_config.py
pub record ExtensionConfig : Type 0 where
  pub use_auth : Bool
  pub disable_pk_filtration : User → Result Bool
  pub db_connection_to_user_fks_mapping : Dict String
  pub db_connection_pks : List String
  -- the attributes that the model has
  pub columns : List String

-- `getattr(user, pk)`
abbrev pub attribute_of : String → User → Result Value
attribute_of pk none = err (other_error "AttributeError" pk)
attribute_of pk (some fields) = elim (get pk fields) [
  | none ↦ err (other_error "AttributeError" pk)
  | some v ↦ ok v
]

-- `[getattr(Model, fk) == getattr(user, pk) for fk, pk in mapping.items()]`
unfoldable pub owner_clauses : Dict String → User → Result (List Clause)
owner_clauses [] user = ok []
owner_clauses ((fk, pk) ∷ mapping_) user = do
  v ← attribute_of pk user
  rest ← owner_clauses mapping_ user
  ok ((fk, v) ∷ rest)

-- `Model.is_deleted == False`
abbrev pub alive : Clause
alive = ("is_deleted", bool false)

-- `[getattr(Model, field_name) == values.get(field_name) for field_name in pks]`
abbrev pub key_clauses : List String → Dict Value → List Clause
key_clauses [] values_ = []
key_clauses (field_name ∷ pks) values_ =
    (field_name, get_or (get field_name values_) null) ∷ key_clauses pks values_

-- the owner's clauses, `if USE_AUTH and not disable_pk_filtration(user)`
unfoldable pub scoped : ExtensionConfig → User → Result (List Clause)
scoped config user =
    if config.use_auth
    then (config.disable_pk_filtration user >>= λ disabled.
        if disabled then ok [] else owner_clauses config.db_connection_to_user_fks_mapping user)
    else ok []

-- the owner's clauses where the callback is asked first: `if disable_pk_filtration(user): ...`, and
-- then `if USE_AUTH`
unfoldable pub scoped_last : ExtensionConfig → User → Result (List Clause)
scoped_last config user = config.disable_pk_filtration user >>= λ disabled.
    if disabled
    then ok []
    else if config.use_auth
    then owner_clauses config.db_connection_to_user_fks_mapping user
    else ok []

-- more clauses are met if each part is
pub meets-append :
    (cs ds : List Clause) (row : TableRow) → meets (cs ++ ds) row ≡ (meets cs row && meets ds row)
meets-append [] ds row = refl
meets-append (c ∷ cs) ds row = ground (arith, meets-append cs ds row)
