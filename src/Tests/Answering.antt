-- ===== src/Tests/Answering.antt =====
-- The theorem on successive requests at a table in memory.
-- responses that are the data given to them
use db_connections.Api.{response_data, to_response}
use db_connections.Api.Responses.{ResponseSchemas, build_read_response}
use db_connections.Api.Routes.{delete_route, get_route, route}
use db_connections.Domain.{has_read_issue}
use db_connections.DriverOptions.{
  build_public_driver_options, public_options, resolve_driver_spec, validate_driver_options,
}
use db_connections.Exec.{finally}
use db_connections.Infra.Encryption.{fernet_decrypt}
use db_connections.Infra.Mapper.{coerce_mapping, decode_driver_options, decode_secrets, to_record}
use db_connections.Infra.OptionsColumn.{partition_colon, process_result_value, resolve_model_ref}
use db_connections.Infra.Repository.{delete_existing, delete_record, get_record, update_and_fetch}
use db_connections.Infra.UnitOfWork.{uow_exit}
use db_connections.Prelude.{[], inl, none, refl, ◌∷◌, ◌≡◌}
use db_connections.Projection.{project_properties, public_view}
use db_connections.Projection.ReadView.{
  all_issues, build_any, build_known, finish, kind_issues, options_outcome, options_step,
  properties_step, secrets_outcome, secrets_step,
}
use db_connections.Registry.{get_type}
use db_connections.Result.{ok}
use db_connections.Service.{
  commit_if, delete_connection, delete_in, found_record, get_connection, get_in, managed, use_uow,
}
use db_connections.System.Answers.{get_route-delete_route}
use db_connections.Tests.Seeing.{service}
use db_connections.Tests.Storage.{table-IsDurable, table-IsFaithful, table_session}
use db_connections.Tests.Storing.{filled_table, imports, provider}
use db_connections.Validation.{dict_of}
use db_connections.Value.{null, of_dict, str}

abbrev schemas : ResponseSchemas
schemas = record { read = λ fs. ok (of_dict fs); broken_read = λ fs. ok (of_dict fs) }

get_route-delete_route_example :
    (route
      (get_route service schemas null none "c1")
      (route (delete_route service schemas null none "c1") filled_table).1).0
    ≡ inl (record {
      status_code = 404;
      code = "connection_not_found";
      message = "Connection not found.";
      details = ("connection_id", str "c1") ∷ [];
      headers = [];
    })
unfolding route get_route delete_route build_read_response build_any build_known get_type
    options_step options_outcome build_public_driver_options validate_driver_options
    resolve_driver_spec public_options finish all_issues kind_issues properties_step
    project_properties secrets_step secrets_outcome public_view dict_of to_response response_data
    delete_connection use_uow managed uow_exit finally delete_in get_connection get_in get_record
    found_record to_record has_read_issue coerce_mapping decode_secrets fernet_decrypt
    decode_driver_options process_result_value partition_colon resolve_model_ref commit_if
    delete_record delete_existing update_and_fetch
get_route-delete_route_example =
    get_route-delete_route table_session provider imports service null schemas table-IsFaithful
      table-IsDurable "c1" _ filled_table refl
