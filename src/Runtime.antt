-- ===== src/Runtime.antt =====
-- runtime/settings.py: the runtime keeps the settings and a service that is built from them. Its
-- encryption provider and error mapper are only stored, and its lock makes updates sequential.
use db_connections.Domain.{PatchValue}
use db_connections.Exec.{Exec}
use db_connections.Int.{ℤ}
use db_connections.Prelude.{Option, get_or, refl, ◌≡◌}
use db_connections.Registry.{ConnectionRegistry}
use db_connections.Result.{Result, err, ok}
use db_connections.Service.{
  AccessPolicy, ConnectionService, OwnershipResolver, UnitOfWork, allow_all, no_op_resolver,
  value_or,
}

-- `DBConnectionRuntime`, with the one field of `DBConnectionSettings`
pub record DbConnectionRuntime (S : Type 0) : Type 0 where
  pub max_connections : Option ℤ
  pub registry : ConnectionRegistry
  pub uow_factory : UnitOfWork S
  pub access_policy : AccessPolicy
  pub ownership_resolver : OwnershipResolver
  pub service : ConnectionService S

module _ {S : Type 0} where
  -- `_build_service`
  unfoldable pub build_service : DbConnectionRuntime S → Option ℤ → ConnectionService S
  build_service r max_connections = record {
    max_connections = max_connections;
    registry = r.registry;
    uow_factory = r.uow_factory;
    access_policy = r.access_policy;
    ownership_resolver = r.ownership_resolver;
  }

  -- `__init__`: a policy and a resolver that are not given are the permissive ones
  unfoldable pub new_runtime :
      Option ℤ
      → ConnectionRegistry
      → UnitOfWork S
      → Option AccessPolicy
      → Option OwnershipResolver
      → DbConnectionRuntime S
  new_runtime max_connections registry uow_factory policy resolver = record {
    max_connections = max_connections;
    registry = registry;
    uow_factory = uow_factory;
    access_policy = get_or policy allow_all;
    ownership_resolver = get_or resolver no_op_resolver;
    service = record {
      max_connections = max_connections;
      registry = registry;
      uow_factory = uow_factory;
      access_policy = get_or policy allow_all;
      ownership_resolver = get_or resolver no_op_resolver;
    };
  }

  -- `update_settings`: a patch that does not set the field keeps it; a dictionary that is no patch
  -- raises before anything is changed
  unfoldable pub update_settings :
      Result (PatchValue (Option ℤ)) → Exec (DbConnectionRuntime S) (Option ℤ)
  unfolding build_service
  update_settings (err e) r = (err e, r)
  update_settings (ok patch) r =
      let max_connections = value_or patch r.max_connections in
      (
        ok max_connections,
        record r { max_connections = max_connections; service = build_service r max_connections },
      )

  -- the service is the one that the other fields give
  abbrev pub IsCurrent : DbConnectionRuntime S → Type 0
  IsCurrent r = r.service ≡ build_service r r.max_connections

  pub new_runtime-IsCurrent :
      (n : Option ℤ) (registry : ConnectionRegistry) (u : UnitOfWork S)
      (policy : Option AccessPolicy) (resolver : Option OwnershipResolver)
      → IsCurrent (new_runtime n registry u policy resolver)
  unfolding new_runtime build_service
  new_runtime-IsCurrent n registry u policy resolver = refl

  -- an update of the settings leaves a service that follows them
  pub update_settings-IsCurrent :
      (patch : Result (PatchValue (Option ℤ))) (r : DbConnectionRuntime S)
      → IsCurrent r
      → IsCurrent (update_settings patch r).1
  unfolding update_settings build_service
  update_settings-IsCurrent (err e) r h = h
  update_settings-IsCurrent (ok patch) r h = refl
