-- ===== src/Api/Routes.antt =====
-- fastapi/extension.py: the routes, each a call of the service between the mapper's translations,
-- and how an exception is answered. FastAPI's routing and dependencies call them; logging is left
-- out.
use db_connections.Api.{CreateRequest, to_create_draft, to_response}
use db_connections.Api.Responses.{
  HttpException, ResponseSchemas, UpdateRequest, build_read_response, build_read_responses,
  parse_filter_param, to_http_exception, to_patch,
}
use db_connections.Domain.{ConnectionCheckResult}
use db_connections.Exec.{Exec, lift, ◌>>=◌}
use db_connections.Infra.Encryption.{Json}
use db_connections.Prelude.{List, Option, String, false, inl, inr, map_option, ◌⊎◌}
use db_connections.Projection.{build}
use db_connections.Result.{err, ok}
use db_connections.Service.{
  ConnectionService, UnitOfWork, check_payload, check_stored, create, delete_connection,
  get_connection, list_connections, update_connection,
}
use db_connections.Value.{Value}

-- `custom_route_handler`: what the client is answered
unfoldable pub route : {S A : Type 0} → Exec S A → S → (HttpException ⊎ A) × S
route m s = let (x, s') = m s in (elim x [ ok a ↦ inr a | err e ↦ inl (to_http_exception e) ], s')

-- the filters of a listing, as query parameters
pub record ListFilters : Type 0 where
  pub kind : Option String
  pub type : Option String
  pub name : Option String
  pub labels : Option String
  pub metadata : Option String
  pub extra : Option String

module _ {S : Type 0} (service : ConnectionService S) (schemas : ResponseSchemas) (actor : Value)
    (uow : Option (UnitOfWork S)) where
  -- `list_connections`
  unfoldable pub list_route : Json → ListFilters → Exec S (List Value)
  list_route json filters = lift (parse_filter_param json "labels" filters.labels) >>= λ labels.
      lift (parse_filter_param json "metadata" filters.metadata) >>= λ metadata.
      lift (parse_filter_param json "extra" filters.extra) >>= λ extra.
      list_connections service actor
        (record {
          kind = filters.kind;
          type = filters.type;
          name = filters.name;
          include_deleted = false;
          label_filters = labels;
          metadata_filters = metadata;
          extra_filters = extra;
        })
        uow
      >>= λ records. lift (build_read_responses service.registry schemas records)

  -- `create_connection`: the public view of what was created
  unfoldable pub create_route : CreateRequest → Exec S Value
  create_route payload = create service actor (to_create_draft payload) uow >>= λ r.
      lift (build service.registry r) >>= λ v. lift (to_response schemas.read v)

  -- `get_connection`
  unfoldable pub get_route : String → Exec S Value
  get_route connection_id = get_connection service actor connection_id uow >>= λ r.
      lift (build_read_response service.registry schemas r)

  -- `update_connection`
  unfoldable pub update_route : String → UpdateRequest → Exec S Value
  update_route connection_id payload =
      update_connection service actor connection_id (to_patch payload) uow >>= λ r.
      lift (build_read_response service.registry schemas r)

  -- `delete_connection`
  unfoldable pub delete_route : String → Exec S Value
  delete_route connection_id = delete_connection service actor connection_id uow >>= λ r.
      lift (build_read_response service.registry schemas r)

  -- `check_connection`
  unfoldable pub check_route : CreateRequest → Exec S ConnectionCheckResult
  check_route payload = check_payload service actor (to_create_draft payload)

  -- `check_stored_connection`: without a body there is no patch
  unfoldable pub check_stored_route : String → Option UpdateRequest → Exec S ConnectionCheckResult
  check_stored_route connection_id payload =
      check_stored service actor connection_id (map_option to_patch payload) uow
