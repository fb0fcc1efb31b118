-- ===== src/Domain/Entities.antt =====
-- Payloads, drafts and validated connections (domain/entities/envelope.py, draft.py, validated.py,
-- list_query.py, check_result.py).
use db_connections.Dict.{Dict}
use db_connections.Prelude.{
  Bool, List, Option, String, [], elem, false, keep_if, none, not, some, ◌∷◌,
}
use db_connections.Value.{Value}

-- an instance of a pydantic model, seen through `type(m)` and `m.model_dump(mode=...)`
pub record Model : Type 0 where
  pub ref : String
  pub is_driver_options : Bool
  pub dump_python : Dict Value
  pub dump_json : Dict Value

-- what the code hands to `model_validate`: `None`, a dictionary, an instance, or another value
pub data Payload : Type 0 where
  absent : Payload
  mapping : Dict Value → Payload
  instance_of : Model → Payload
  plain : Value → Payload

-- the outcome of `model_validate`: an instance, or a `ValidationError` with its `errors()`
pub data Checked : Type 0 where
  valid : Model → Checked
  invalid : Value → Checked

pub record ModelClass : Type 0 where
  pub ref : String
  pub is_driver_options : Bool
  pub model_validate : Payload → Checked

abbrev pub payload_of : Option (Dict Value) → Payload
payload_of none = absent
payload_of (some d) = mapping d

-- `ConnectionEnvelope`. A merged patch may put `None` where the annotations promise a value.
pub record ConnectionEnvelope : Type 0 where
  pub name : Option String
  pub kind : String
  pub type : String
  pub driver : Option String
  pub driver_options : Payload
  pub properties : Option (Dict Value)
  pub secrets : Option (Dict Value)
  pub labels : Option (Dict Value)
  pub metadata : Option (Dict Value)
  pub extra : Option (Dict Value)

-- `ConnectionDraft` adds nothing to the envelope
abbrev pub ConnectionDraft : Type 0
ConnectionDraft = ConnectionEnvelope

abbrev draft_fields : List String
draft_fields =
    "name" ∷ "kind" ∷ "type" ∷ "driver" ∷ "driver_options" ∷ "properties" ∷ "secrets" ∷ "labels"
    ∷ "metadata" ∷ "extra" ∷ []

unfoldable pub build_draft_fields : List String
build_draft_fields = draft_fields

unfoldable pub extract_draft_extra : Dict Value → Dict Value
unfolding build_draft_fields
extract_draft_extra raw = keep_if (λ kv. not (elem kv.0 build_draft_fields)) raw

pub record ValidatedConnection : Type 0 where
  pub name : Option String
  pub kind : String
  pub type : String
  pub driver : Option String
  pub driver_options : Option Model
  pub properties : Model
  pub secrets : Option Model
  pub labels : Dict Value
  pub metadata : Dict Value
  pub extra : Dict Value

abbrev pub of_model : Option Model → Payload
of_model none = absent
of_model (some m) = instance_of m

-- `{} if secrets is None else secrets.model_dump(mode="json")`
abbrev pub dump_secrets : Option Model → Dict Value
dump_secrets none = []
dump_secrets (some m) = m.dump_json

unfoldable pub to_draft : ValidatedConnection → ConnectionDraft
to_draft v = record {
  name = v.name;
  kind = v.kind;
  type = v.type;
  driver = v.driver;
  driver_options = of_model v.driver_options;
  properties = some v.properties.dump_json;
  secrets = some (dump_secrets v.secrets);
  labels = some v.labels;
  metadata = some v.metadata;
  extra = some v.extra;
}

pub record ConnectionListQuery : Type 0 where
  pub kind : Option String
  pub type : Option String
  pub name : Option String
  pub include_deleted : Bool
  pub label_filters : Dict Value
  pub metadata_filters : Dict Value
  pub extra_filters : Dict Value

-- `ConnectionListQuery()`
abbrev pub default_query : ConnectionListQuery
default_query = record {
  kind = none;
  type = none;
  name = none;
  include_deleted = false;
  label_filters = [];
  metadata_filters = [];
  extra_filters = [];
}

pub record ConnectionCheckResult : Type 0 where
  pub name : Option String
  pub connected : Bool
  pub message : Option String
  pub exception : Option String
