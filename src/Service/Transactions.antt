-- ===== src/Service/Transactions.antt =====
-- Transactions: what a service call commits, over any unit of work that keeps uncommitted writes
-- to itself.
use db_connections.Domain.{ConnectionDraft, ConnectionListQuery, ConnectionPatch}
use db_connections.Exec.Preserves.{Preserves, preserves_rules}
use db_connections.Prelude.{Option, String, none, some, true}
use db_connections.Service.Operations.{
  check_stored, check_stored_in, create, delete_connection, get_connection, get_in,
  list_connections, update_connection, use_uow,
}
use db_connections.Service.Ports.{ConnectionService, UnitOfWork}
use db_connections.Service.Steps.{
  IsTransactional, check_stored_in-Preserves, create_in-Preserves, delete_in-Preserves,
  get_in-Preserves, managed-Preserves, update_in-Preserves,
}
use db_connections.Value.{Value}

-- With a unit of work of the caller's the service commits nothing, whether a call returns or
-- raises: that is left to the caller.
pub borrowed_commits_nothing :
    {S V : Type 0} (persisted : S → V) (service : ConnectionService S) (actor : Value)
    (u : UnitOfWork S)
    → IsTransactional persisted u
    → ((d : ConnectionDraft) → Preserves persisted (create service actor d (some u)))
      × ((i : String) (p : ConnectionPatch)
          → Preserves persisted (update_connection service actor i p (some u)))
      × ((i : String) → Preserves persisted (delete_connection service actor i (some u)))
unfolding create update_connection delete_connection use_uow
borrowed_commits_nothing persisted service actor u t = (
  λ d. search (preserves_rules, create_in-Preserves persisted service actor u t) depth 8,
  λ i p. update_in-Preserves persisted service actor u t i p,
  λ i. delete_in-Preserves persisted service actor u t i,
)

-- Reading, listing and checking stored connections never change the committed state.
pub reads_commit_nothing :
    {S V : Type 0} (persisted : S → V) (service : ConnectionService S) (actor : Value)
    → IsTransactional persisted service.uow_factory
    → ((i : String) → Preserves persisted (get_connection service actor i none))
      × ((q : ConnectionListQuery) → Preserves persisted (list_connections service actor q none))
      × ((i : String) (p : Option ConnectionPatch)
          → Preserves persisted (check_stored service actor i p none))
unfolding get_connection list_connections check_stored use_uow
reads_commit_nothing persisted service actor t =
    let u = service.uow_factory in
    (
      λ i.
          managed-Preserves persisted u (get_in service actor i) t
            (get_in-Preserves persisted service actor u t i true),
      λ q. search (
        preserves_rules,
        λ (scoped : ConnectionListQuery).
            managed-Preserves persisted u (λ v _. v.connections.list scoped) t
              (t.list_keeps scoped),
      ),
      λ i p.
          managed-Preserves persisted u (check_stored_in service actor i p) t
            (check_stored_in-Preserves persisted service actor u t i p true),
    )
