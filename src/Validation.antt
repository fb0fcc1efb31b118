-- ===== src/Validation.antt =====
-- application/validation.py: `ValidationService.validate`.
pub mod Contract
pub mod Failures
pub mod Stable
use db_connections.Dict.{Dict}
use db_connections.Domain.{
  Checked, ConnectionEnvelope, Model, ModelClass, Payload, TypeSpec, ValidatedConnection, invalid,
  payload_of, valid,
}
use db_connections.DriverOptions.{validate_driver_options}
use db_connections.Errors.{Error, other_error, validation_failed}
use db_connections.Prelude.{
  Bool, List, Option, String, [], elem, false, get_or, is_nonempty, none, not, or_else, quote, some,
  truthy, ◌&&◌, ◌==◌, ◌∷◌,
}
use db_connections.Registry.{ConnectionRegistry, get_type}
use db_connections.Result.{Result, err, ok, raise_if, ◌>>=◌, ◌>>◌}
use db_connections.Tests.Data.{registry}
use db_connections.Value.{Value}

-- `dict(x)` of a field that may hold `None`
unfoldable pub dict_of : Option (Dict Value) → Result (Dict Value)
dict_of none = err (other_error "TypeError" "'NoneType' object is not iterable")
dict_of (some d) = ok d

abbrev pub checked_payload : Checked → Result Model
checked_payload (valid m) = ok m
checked_payload (invalid e) =
    err (validation_failed "Connection payload validation failed." (("errors", e) ∷ []))

-- `None if secrets_model is None else secrets_model.model_validate(draft.secrets)`
abbrev pub checked_secrets : Option ModelClass → Payload → Result (Option Model)
checked_secrets none raw = ok none
checked_secrets (some c) raw = checked_payload (c.model_validate raw) >>= λ m. ok (some m)

-- `effective_driver and spec.supported_drivers and effective_driver not in spec.supported_drivers`
abbrev pub is_unsupported : Option String → List String → Bool
is_unsupported none supported = false
is_unsupported (some d) supported = truthy d && (is_nonempty supported && not (elem d supported))

abbrev kind_mismatch : ConnectionEnvelope → TypeSpec → Error
kind_mismatch draft spec =
    validation_failed
      (quote (quote (quote "Type '" draft.type "' belongs to kind '") spec.kind "', received '")
        draft.kind "'.")
      []

abbrev driver_unsupported : ConnectionEnvelope → Option String → Error
driver_unsupported draft driver =
    validation_failed
      (quote (quote "Driver '" (get_or driver "None") "' is not supported for type '") draft.type
        "'.")
      []

-- the checks against the spec of the draft's type
unfoldable pub validate_against : TypeSpec → ConnectionEnvelope → Result ValidatedConnection
validate_against spec draft = do
  raise_if (not (draft.kind == spec.kind)) (kind_mismatch draft spec)
  let driver = or_else draft.driver spec.default_driver
  raise_if (is_unsupported driver spec.supported_drivers) (driver_unsupported draft driver)
  properties ← checked_payload (spec.properties_model.model_validate (payload_of draft.properties))
  secrets ← checked_secrets spec.secrets_model (payload_of draft.secrets)
  driver_options ← validate_driver_options spec draft.type driver draft.driver_options
  labels ← dict_of draft.labels
  metadata ← dict_of draft.metadata
  extra ← dict_of draft.extra
  ok (record {
    name = draft.name;
    kind = draft.kind;
    type = draft.type;
    driver = driver;
    driver_options = driver_options;
    properties = properties;
    secrets = secrets;
    labels = labels;
    metadata = metadata;
    extra = extra;
  })

unfoldable pub validate : ConnectionRegistry → ConnectionEnvelope → Result ValidatedConnection
validate registry draft = do spec ← get_type draft.type registry; validate_against spec draft
