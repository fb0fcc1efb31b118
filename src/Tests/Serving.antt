-- ===== src/Tests/Serving.antt =====
-- The service's theorems at a service over a table in memory.
use db_connections.Domain.{ConnectionDraft, ConnectionPatch, empty_patch, has_read_issue, set}
use db_connections.Exec.Preserves.{Preserves}
use db_connections.Infra.Encryption.{Json, no_op_provider}
use db_connections.Infra.OptionsColumn.{Imports, other_object}
use db_connections.Infra.UnitOfWork.{sql_uow, sql_uow-IsTransactional}
use db_connections.Int.{pos}
use db_connections.Prelude.{String, [], none, refl, some, ◌∷◌, ◌≡◌}
use db_connections.Result.{err, ok}
use db_connections.Service.{
  ConnectionService, UnitOfWork, allow_all, client_of_record, create, delete_connection,
  draft_to_check, merge, no_op_resolver, prepare_update, repair_required_error, update_connection,
}
use db_connections.Service.Merging.{IsMerged, merge_lem}
use db_connections.Service.Repair.{NeedsSecrets, unreadable_secrets}
use db_connections.Service.Steps.{IsTransactional}
use db_connections.Service.Transactions.{borrowed_commits_nothing}
use db_connections.Tests.Data.{locked_record, pg_record, registry}
use db_connections.Tests.Storage.{Table, empty_table, saved_rows, table-IsIsolated, table_session}
use db_connections.Value.{dict, end, null, str}

abbrev no_json : Json
no_json = record { dumps = λ v. "{}"; loads = λ s. ok (dict end) }

abbrev no_imports : Imports
no_imports module_name path = ok other_object

abbrev pub table_uow : UnitOfWork Table
table_uow = sql_uow table_session (no_op_provider no_json) no_imports

uow-IsTransactional : IsTransactional saved_rows table_uow
uow-IsTransactional =
    sql_uow-IsTransactional saved_rows table_session (no_op_provider no_json) no_imports
      table-IsIsolated

abbrev service : ConnectionService Table
service = record {
  max_connections = some (pos 3);
  registry = registry;
  uow_factory = table_uow;
  access_policy = allow_all;
  ownership_resolver = no_op_resolver;
}

borrowed_commits_nothing_example :
    ((d : ConnectionDraft) → Preserves saved_rows (create service null d (some table_uow)))
    × ((i : String) (p : ConnectionPatch)
        → Preserves saved_rows (update_connection service null i p (some table_uow)))
    × ((i : String) → Preserves saved_rows (delete_connection service null i (some table_uow)))
borrowed_commits_nothing_example =
    borrowed_commits_nothing saved_rows service null table_uow uow-IsTransactional

-- a patch that sets the secrets
abbrev new_secrets : ConnectionPatch
new_secrets = record empty_patch { secrets = set (some (("password", str "s3cret") ∷ [])) }

merge_example :
    (d : ConnectionDraft) × (merge pg_record new_secrets ≡ ok d) × IsMerged pg_record new_secrets d
merge_example = merge_lem pg_record new_secrets

unreadable_secrets_example :
    (client_of_record registry locked_record ≡ err repair_required_error)
    × (draft_to_check service null "c1" none locked_record empty_table
        ≡ (err repair_required_error, empty_table))
    × NeedsSecrets
        (ok empty_patch)
        (prepare_update service null "c1" empty_patch locked_record empty_table)
    × NeedsSecrets
        (ok empty_patch)
        (draft_to_check service null "c1" (some empty_patch) locked_record empty_table)
unfolding has_read_issue
unreadable_secrets_example =
    unreadable_secrets service null "c1" locked_record empty_table empty_patch refl
