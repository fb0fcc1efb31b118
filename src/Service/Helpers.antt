-- ===== src/Service/Helpers.antt =====
-- The private helpers of `ConnectionService` (application/service.py).
use db_connections.Dict.{Dict, contains, erase, get, update}
use db_connections.Domain.{
  Client, ConnectionCheckResult, ConnectionDraft, ConnectionEnvelope, ConnectionPatch,
  ConnectionRecord, Connector, PatchValue, ValidatedConnection, dump_secrets, has_read_issue,
  of_model, patch_fields_set, patch_to_dict, set, unset,
}
use db_connections.Errors.{Error, validation_failed}
use db_connections.Prelude.{String, [], elem, none, not, quote, some, ◌&&◌, ◌||◌, ◌∷◌}
use db_connections.Registry.{ConnectionRegistry, get_type}
use db_connections.Result.{Result, err, ok, raise_if, ◌>>=◌, ◌>>◌}
use db_connections.Validation.{dict_of, validate}
use db_connections.Value.{Value, cons, dict, items, list, nil, str}

-- `_payload_with_extra`: the extra fields are spread over the payload
unfoldable pub payload_with_extra : Dict Value → Dict Value
payload_with_extra payload = elim (get "extra" payload) [
  | some (dict fs) ↦ update (erase "extra" payload) (items fs)
  | _ ↦ erase "extra" payload
]

unfoldable pub repair_required_error : Error
repair_required_error =
    validation_failed
      "Stored connection secrets cannot be read. Provide a replacement 'secrets' payload to repair the connection."
      (("repair_required", list (cons (str "secrets") nil)) ∷ [])

-- `_ensure_readable_secrets`
unfoldable pub ensure_readable_secrets : ConnectionRecord → Result (Unit {0})
ensure_readable_secrets r =
    raise_if (has_read_issue r "unreadable_secrets" "secrets") repair_required_error

-- `_ensure_patch_can_replace_unreadable_secrets`
unfoldable pub ensure_patch_can_replace_unreadable_secrets :
    ConnectionRecord → ConnectionPatch → Result (Unit {0})
ensure_patch_can_replace_unreadable_secrets r patch =
    raise_if
      (has_read_issue r "unreadable_secrets" "secrets"
        && not (elem "secrets" (patch_fields_set patch)))
      repair_required_error

-- `patch.f if "f" in patch_fields else existing.f`
abbrev pub value_or {ℓ} : {A : Type ℓ} → PatchValue A → A → A
value_or unset d = d
value_or (set a) d = a

-- the draft that `_merge` builds
abbrev pub merged_draft : ConnectionRecord → ConnectionPatch → ConnectionDraft
merged_draft existing patch = record {
  name = value_or patch.name existing.name;
  kind = existing.kind;
  type = existing.type;
  driver = value_or patch.driver existing.driver;
  driver_options = value_or patch.driver_options existing.driver_options;
  properties = value_or patch.properties existing.properties;
  secrets = value_or patch.secrets existing.secrets;
  labels = value_or patch.labels existing.labels;
  metadata = value_or patch.metadata existing.metadata;
  extra = value_or patch.extra existing.extra;
}

-- `_merge`
unfoldable pub merge : ConnectionRecord → ConnectionPatch → Result ConnectionDraft
merge existing patch = do
  let patch_data = patch_to_dict patch
  raise_if (contains "kind" patch_data || contains "type" patch_data)
      (validation_failed "Changing connection kind or type is not supported." [])
  ok (merged_draft existing patch)

-- `_get_connector`
unfoldable pub get_connector : ConnectionRegistry → String → Result Connector
get_connector registry connection_type = do
  spec ← get_type connection_type registry
  elim spec.connector_factory [
    | none ↦
        err (validation_failed (quote "Connector is not configured for '" connection_type "'.") [])
    | some c ↦ ok c
  ]

-- `_to_persisted_draft`: the source's identity, with what validation made of its payloads
unfoldable pub to_persisted_draft :
    ConnectionEnvelope → ValidatedConnection → Result ConnectionDraft
to_persisted_draft source validated = do
  labels ← dict_of source.labels
  metadata ← dict_of source.metadata
  extra ← dict_of source.extra
  ok (record {
    name = source.name;
    kind = source.kind;
    type = source.type;
    driver = source.driver;
    driver_options = of_model validated.driver_options;
    properties = some validated.properties.dump_json;
    secrets = some (dump_secrets validated.secrets);
    labels = some labels;
    metadata = some metadata;
    extra = some extra;
  })

-- `validated = validate(draft); return await self._get_connector(validated.type).check(validated)`
unfoldable pub check_draft : ConnectionRegistry → ConnectionEnvelope → Result ConnectionCheckResult
check_draft registry draft = do
  validated ← validate registry draft
  connector ← get_connector registry validated.type
  connector.check validated

-- `get_client` of a draft
unfoldable pub client_of_draft : ConnectionRegistry → ConnectionEnvelope → Result Client
client_of_draft registry draft = do
  validated ← validate registry draft
  connector ← get_connector registry validated.type
  connector.get_client validated

-- `get_client` of a record
unfoldable pub client_of_record : ConnectionRegistry → ConnectionRecord → Result Client
client_of_record registry r = do ensure_readable_secrets r; client_of_draft registry r.envelope
