-- ===== src/Compat/Router/Sharing.antt =====
-- compat/router.py: two routers of one process, which share the module compat/extension_config.py.
use db_connections.Compat.Orm.{OrmSession}
use db_connections.Compat.Router.{
  RouterArguments, SharedConfig, get_fk_to_remote_mapping, new_router, new_router-auth,
  new_router-keeps_dep, new_router-routes_dep, request_user, request_user-undefined,
}
use db_connections.Compat.Routes.{get_connection_route}
use db_connections.Compat.RowModel.{RowModel}
use db_connections.Compat.Statements.{ExtensionConfig, User, owner_clauses, scoped_last}
use db_connections.Dict.{Dict}
use db_connections.Errors.{other_error}
use db_connections.Prelude.{String, [], ap, false, none, refl, some, true, ℕ, ◌∙◌, ◌∷◌, ◌≡◌}
use db_connections.Result.{Result, err, is_err, ok}
use db_connections.Value.{Value}

module _ {S : Type 0} (session : OrmSession S) (model : RowModel)
    (new_fernet : String → Result ℕ) where
  asked_last :
      (extension : ExtensionConfig) (fk pk : String) (rest : Dict String)
      → extension.use_auth ≡ true
      → extension.db_connection_to_user_fks_mapping ≡ (fk, pk) ∷ rest
      → extension.disable_pk_filtration none ≡ ok false
      → scoped_last extension none ≡ err (other_error "AttributeError" pk)
  unfolding scoped_last owner_clauses
  asked_last extension fk pk rest auth mapping_ filtered = rw (filtered, auth, mapping_) refl

  -- Once a router without users was made first in a process, a router that is made next with users,
  -- tied to them by a foreign key and not letting an undefined user past the filter, answers no request for a connection: the routes hold the first
  -- router's dependency, so the user is undefined, and looking up its column raises before a read.
  pub late_users_fail :
      (first second : RouterArguments) (config : SharedConfig) (t fk pk : String)
      (rest : Dict String) (user : User) (kwargs : Dict Value) (s : S)
      → let made = new_router new_fernet first config in
        let made' = new_router new_fernet second made.1 in
        config.routes_dep ≡ none
        → config.get_user_dep ≡ false
        → first.user_table ≡ none
        → is_err made.0 ≡ false
        → second.user_table ≡ some t
        → is_err made'.0 ≡ false
        → get_fk_to_remote_mapping second.constraints t [] ≡ (fk, pk) ∷ rest
        → second.disable_pk_filtration none ≡ ok false
        → get_connection_route session made'.1.extension model (request_user made'.1 user) kwargs s
          ≡ (err (other_error "AttributeError" pk), s)
  unfolding get_connection_route
  late_users_fail first second config t fk pk rest user kwargs s not_bound undefined alone made
        users made' mapping_ filtered =
      let between = (new_router new_fernet first config).1 in
      let after = (new_router new_fernet second between).1 in
      let dep =
        new_router-keeps_dep new_fernet second between false
          (new_router-routes_dep new_fernet first config alone made not_bound undefined) in
      let (auth, same, disabled) = new_router-auth new_fernet second between t users made' in
      rw
        (
          request_user-undefined after user dep,
          asked_last after.extension fk pk rest auth (same ∙ mapping_)
              (ap (λ d. d none) disabled ∙ filtered),
        )
        refl
