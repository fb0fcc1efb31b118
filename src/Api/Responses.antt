-- ===== src/Api/Responses.antt =====
-- fastapi/extension.py, what its routes do around the service: the filters of a query, the answer to an
-- exception and the choice of a response; and fastapi/mapper.py, `to_patch`.
-- `except json.JSONDecodeError`
use db_connections.Api.{Schema, to_broken_response, to_response}
use db_connections.Dict.{Dict}
use db_connections.Domain.{
  ConnectionPatch, ConnectionRecord, extract_draft_extra, patch_to_dict, set,
}
use db_connections.Errors.{Error, map_exception, other_error, validation_failed}
use db_connections.Infra.Encryption.{Json}
use db_connections.Prelude.{
  Bool, List, Option, String, [], false, if◌then◌else◌, is_nonempty, none, quote, some, ℕ, ◌++◌,
  ◌==◌, ◌∷◌,
}
use db_connections.Projection.{broken, public}
use db_connections.Projection.ReadView.{build_any}
use db_connections.Registry.{ConnectionRegistry}
use db_connections.Result.{Result, err, ok, ◌>>=◌}
use db_connections.Value.{Value, dict, items, str}

abbrev is_decode_error : Error → Bool
is_decode_error (other_error c m) = c == "JSONDecodeError"
is_decode_error _ = false

-- `_parse_filter_param`
unfoldable pub parse_filter_param : Json → String → Option String → Result (Dict Value)
parse_filter_param json field_name none = ok []
parse_filter_param json field_name (some raw_value) = elim (json.loads raw_value) [
  | ok (dict fs) ↦ ok (items fs)
  | ok v ↦ err (
      validation_failed (quote "Query parameter '" field_name "' must decode to a JSON object.")
        (("parameter", str field_name) ∷ []))
  | err e ↦
      if is_decode_error e
      then err (
          validation_failed (quote "Query parameter '" field_name "' must contain valid JSON.")
            (("parameter", str field_name) ∷ []))
      else err e
]

-- `HTTPException`, its detail as the fields of the payload
pub record HttpException : Type 0 where
  pub status_code : ℕ
  pub code : String
  pub message : String
  pub details : Dict Value
  pub headers : Dict String

-- `_to_http_exception`, with the default error mapper
unfoldable pub to_http_exception : Error → HttpException
to_http_exception e =
    let spec = map_exception e in
    record {
      status_code = spec.status_code;
      code = spec.code;
      message = spec.message;
      details = spec.details;
      headers = spec.headers;
    }

-- `APISchemaSet` as far as responses are concerned
pub record ResponseSchemas : Type 0 where
  pub read : Schema
  pub broken_read : Schema

-- `ConnectionUpdateRequest` as pydantic has read it: the fields that a patch has, where they are
-- set, and the other fields of the request. Of what a request may hold under the key `extra`, only
-- dictionaries and null are modelled.
pub record UpdateRequest : Type 0 where
  pub own_fields : ConnectionPatch
  pub extra_fields : Dict Value

-- `payload.model_dump(exclude_unset=True, mode="python")`
abbrev dump_update : UpdateRequest → Dict Value
dump_update payload = patch_to_dict payload.own_fields ++ payload.extra_fields

-- `to_patch`: the fields that are set, and the other fields of the request as the extra ones
unfoldable pub to_patch : UpdateRequest → ConnectionPatch
to_patch payload =
    let extra = extract_draft_extra (dump_update payload) in
    if is_nonempty extra
    then record payload.own_fields { extra = set (some extra) }
    else payload.own_fields

module _ (registry : ConnectionRegistry) (schemas : ResponseSchemas) where
  -- `_build_read_response`
  unfoldable pub build_read_response : ConnectionRecord → Result Value
  build_read_response r = build_any registry r >>= λ v. elim v [
    | public v ↦ to_response schemas.read v
    | broken v ↦ to_broken_response schemas.broken_read v
  ]

  unfoldable pub build_read_responses : List ConnectionRecord → Result (List Value)
  build_read_responses [] = ok []
  build_read_responses (r ∷ rs) = do
    response ← build_read_response r
    responses ← build_read_responses rs
    ok (response ∷ responses)
