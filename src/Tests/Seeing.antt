-- ===== src/Tests/Seeing.antt =====
-- The theorems on successive service calls at a table in memory.
use db_connections.Domain.{
  ConnectionRecord, asdict, empty_patch, has_read_issue, patch_fields_set, patch_to_dict,
}
use db_connections.DriverOptions.{
  is_empty_driver_options, resolve_driver_spec, validate_driver_options,
}
use db_connections.Errors.{message}
use db_connections.Exec.{finally}
use db_connections.Infra.Encryption.{fernet_decrypt}
use db_connections.Infra.Mapper.{coerce_mapping, decode_driver_options, decode_secrets, to_record}
use db_connections.Infra.OptionsColumn.{
  partition_colon, process_bind_param, process_result_value, resolve_model_ref,
}
use db_connections.Infra.Repository.{
  create_record, get_record, insert_and_fetch, list_records, matches_filters,
  matches_mapping_filters, replace_existing, replace_record, update_and_fetch, where_clauses,
}
use db_connections.Infra.Rows.{columns_of}
use db_connections.Infra.UnitOfWork.{sql_uow, uow_exit}
use db_connections.Int.{pos}
use db_connections.Prelude.{none, refl, some, ◌≡◌}
use db_connections.Registry.{get_type}
use db_connections.Result.{ok}
use db_connections.Service.{
  ConnectionService, allow_all, check_limit, commit_if, create, create_in,
  ensure_patch_can_replace_unreadable_secrets, found_record, get_connection, get_in, managed, merge,
  no_op_resolver, payload_with_extra, prepare_update, repair_required_error, to_persisted_draft,
  update_connection, update_in, use_uow,
}
use db_connections.System.Visible.{get_connection-create, get_connection-update_connection}
use db_connections.Tests.Data.{pg_draft, pg_record, registry}
use db_connections.Tests.Storage.{
  Table, empty_table, table-IsDurable, table-IsFaithful, table_session,
}
use db_connections.Tests.Storing.{filled_table, imports, provider}
use db_connections.Validation.{dict_of, validate, validate_against}
use db_connections.Value.{null, value_eq}

abbrev pub service : ConnectionService Table
service = record {
  max_connections = some (pos 3);
  registry = registry;
  uow_factory = sql_uow table_session provider imports;
  access_policy = allow_all;
  ownership_resolver = no_op_resolver;
}

get_connection-create_example :
    (get_connection service null "c1" none (create service null pg_draft none empty_table).1).0
    ≡ ok pg_record
unfolding create validate get_type validate_against validate_driver_options resolve_driver_spec
    dict_of use_uow managed uow_exit finally create_in check_limit list_records to_persisted_draft
    columns_of process_bind_param insert_and_fetch commit_if asdict is_empty_driver_options message
    coerce_mapping decode_driver_options decode_secrets to_record partition_colon
    process_result_value resolve_model_ref matches_filters matches_mapping_filters where_clauses
    payload_with_extra value_eq fernet_decrypt create_record
get_connection-create_example =
    get_connection-create table_session provider imports service null table-IsFaithful
      table-IsDurable pg_draft pg_record empty_table refl refl

-- the record after an update that sets nothing
abbrev touched_record : ConnectionRecord
touched_record = record pg_record { updated_at = 9 }

get_connection-update_connection_example :
    (get_connection service null "c1" none
      (update_connection service null "c1" empty_patch none filled_table).1).0
    ≡ ok touched_record
unfolding update_connection use_uow managed uow_exit finally update_in get_connection get_in
    get_record found_record to_record prepare_update ensure_patch_can_replace_unreadable_secrets
    has_read_issue coerce_mapping decode_secrets fernet_decrypt decode_driver_options
    process_result_value patch_fields_set patch_to_dict is_empty_driver_options resolve_driver_spec
    validate_driver_options partition_colon process_bind_param resolve_model_ref columns_of get_type
    merge payload_with_extra repair_required_error to_persisted_draft commit_if dict_of validate
    validate_against replace_record replace_existing update_and_fetch message
get_connection-update_connection_example =
    get_connection-update_connection table_session provider imports service null table-IsFaithful
      table-IsDurable "c1" empty_patch touched_record filled_table refl refl
