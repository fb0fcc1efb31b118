-- ===== src/Service/Ports.antt =====
-- The protocols of the application layer, as records of operations. `S` is the store that a unit
-- of work reads and writes.
use db_connections.Dict.{Dict}
use db_connections.Domain.{ConnectionDraft, ConnectionListQuery, ConnectionPatch, ConnectionRecord}
use db_connections.Exec.{Exec}
use db_connections.Int.{ℤ}
use db_connections.Prelude.{Bool, List, Option, String}
use db_connections.Registry.{ConnectionRegistry}
use db_connections.Result.{Result, ok}
use db_connections.Value.{Value}

pub record AccessContext : Type 0 where
  pub actor : Value
  pub operation : String
  pub connection_id : Option String
  pub payload : Option (Dict Value)

-- the signature of a policy's `can_create` is inspected: some take only the context
pub data CanCreate : Type 0 where
  by_context : (AccessContext → Result (Unit {0})) → CanCreate
  by_draft : (AccessContext → ConnectionDraft → Result (Unit {0})) → CanCreate

pub record AccessPolicy : Type 0 where
  pub scope_list : AccessContext → ConnectionListQuery → Result ConnectionListQuery
  pub can_create : CanCreate
  pub can_get_one : AccessContext → ConnectionRecord → Result (Unit {0})
  pub can_update : AccessContext → ConnectionRecord → ConnectionPatch → Result (Unit {0})
  pub can_delete : AccessContext → ConnectionRecord → Result (Unit {0})

-- `AllowAllAccessPolicy`
abbrev pub allow_all : AccessPolicy
allow_all = record {
  scope_list = λ ctx query. ok query;
  can_create = by_draft (λ ctx draft. ok tt);
  can_get_one = λ ctx existing. ok tt;
  can_update = λ ctx existing patch. ok tt;
  can_delete = λ ctx existing. ok tt;
}

pub record OwnershipResolver : Type 0 where
  pub resolve_create : AccessContext → ConnectionDraft → Result ConnectionDraft
  pub resolve_patch : AccessContext → ConnectionRecord → ConnectionPatch → Result ConnectionPatch

-- `NoOpConnectionOwnershipResolver`
abbrev pub no_op_resolver : OwnershipResolver
no_op_resolver = record {
  resolve_create = λ ctx draft. ok draft;
  resolve_patch = λ ctx existing patch. ok patch;
}

-- `ConnectionRepository`
pub record Repository (S : Type 0) : Type 0 where
  pub create : ConnectionDraft → Exec S ConnectionRecord
  pub list : ConnectionListQuery → Exec S (List ConnectionRecord)
  pub get : String → Exec S (Option ConnectionRecord)
  pub replace : String → ConnectionDraft → Exec S (Option ConnectionRecord)
  pub delete : String → Exec S (Option ConnectionRecord)

-- `ConnectionUnitOfWork`: `exit` is `__aexit__`, told whether the block raised; it may raise itself
pub record UnitOfWork (S : Type 0) : Type 0 where
  pub connections : Repository S
  pub enter : S → S
  pub commit : Exec S (Unit {0})
  pub exit : Bool → Exec S (Unit {0})

-- the fields that `ConnectionService.__init__` stores; the factory gives the unit of work
pub record ConnectionService (S : Type 0) : Type 0 where
  pub max_connections : Option ℤ
  pub registry : ConnectionRegistry
  pub uow_factory : UnitOfWork S
  pub access_policy : AccessPolicy
  pub ownership_resolver : OwnershipResolver
