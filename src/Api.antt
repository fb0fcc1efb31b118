-- ===== src/Api.antt =====
-- fastapi/mapper.py: requests to drafts, and views to the dictionaries of responses.
pub mod Builder
pub mod Listings
pub mod Responses
pub mod Routes
use db_connections.Dict.{Dict, get, get-update, get_last, update}
use db_connections.Dict.Keyed.{or_get}
use db_connections.Domain.{
  ConnectionDraft, Model, StoredConnectionIssue, Time, build_draft_fields, extract_draft_extra,
  of_optional_dict, payload_of,
}
use db_connections.Infra.Repository.{field_of}
use db_connections.Int.{pos}
use db_connections.Prelude.{
  Bool, Bool-cases, Option, String, [], arith, elem, eq_iff, if◌then◌else◌, inl, inr, keep_if, map,
  none, not, refl, some, ◌==◌, ◌∙◌, ◌∷◌, ◌≡◌,
}
use db_connections.Projection.{BrokenPublicConnectionView, PublicConnectionView}
use db_connections.Result.{Result}
use db_connections.Value.{Value, int, list, null, of_dict, of_list, of_text, str}

-- `ConnectionCreateRequest` as pydantic has read it; the schema allows more fields than its own
pub record CreateRequest : Type 0 where
  pub name : String
  pub kind : String
  pub type : String
  pub driver : Option String
  pub driver_options : Option (Dict Value)
  pub properties : Dict Value
  pub secrets : Dict Value
  pub labels : Dict Value
  pub metadata : Dict Value
  pub extra_fields : Dict Value

-- `payload.model_dump(mode="python")`
abbrev pub dump_request : CreateRequest → Dict Value
dump_request r =
    ("name", str r.name)
    ∷ ("kind", str r.kind)
    ∷ ("type", str r.type)
    ∷ ("driver", of_text r.driver)
    ∷ ("driver_options", of_optional_dict r.driver_options)
    ∷ ("properties", of_dict r.properties)
    ∷ ("secrets", of_dict r.secrets)
    ∷ ("labels", of_dict r.labels)
    ∷ ("metadata", of_dict r.metadata)
    ∷ r.extra_fields

-- `to_create_draft`
unfoldable pub to_create_draft : CreateRequest → ConnectionDraft
to_create_draft r = record {
  name = some r.name;
  kind = r.kind;
  type = r.type;
  driver = r.driver;
  driver_options = payload_of r.driver_options;
  properties = some r.properties;
  secrets = some r.secrets;
  labels = some r.labels;
  metadata = some r.metadata;
  extra = some (extract_draft_extra (dump_request r));
}

abbrev of_time : Option Time → Value
of_time none = null
of_time (some t) = int (pos t)

abbrev of_options : Option Model → Value
of_options none = null
of_options (some m) = of_dict m.dump_python

-- the fields of a public view, before the extra fields
abbrev pub public_fields : PublicConnectionView → Dict Value
public_fields v =
    ("id", str v.id)
    ∷ ("name", of_text v.name)
    ∷ ("kind", str v.kind)
    ∷ ("type", str v.type)
    ∷ ("driver", of_text v.driver)
    ∷ ("driver_options", of_options v.driver_options)
    ∷ ("properties", of_dict v.properties.dump_python)
    ∷ ("labels", of_dict v.labels)
    ∷ ("metadata", of_dict v.metadata)
    ∷ ("created_at", int (pos v.created_at))
    ∷ ("updated_at", int (pos v.updated_at))
    ∷ ("deleted_at", of_time v.deleted_at)
    ∷ []

abbrev issue_fields : StoredConnectionIssue → Value
issue_fields i = of_dict (
    ("field", str i.field)
    ∷ ("code", str i.code)
    ∷ ("message", str i.message)
    ∷ ("details", of_dict i.details)
    ∷ [])

-- the fields of a broken view, before the extra fields
abbrev pub broken_fields : BrokenPublicConnectionView → Dict Value
broken_fields v =
    ("state", str v.state)
    ∷ ("id", str v.id)
    ∷ ("name", of_text v.name)
    ∷ ("kind", str v.kind)
    ∷ ("type", str v.type)
    ∷ ("driver", of_text v.driver)
    ∷ ("labels", of_dict v.labels)
    ∷ ("metadata", of_dict v.metadata)
    ∷ ("created_at", int (pos v.created_at))
    ∷ ("updated_at", int (pos v.updated_at))
    ∷ ("deleted_at", of_time v.deleted_at)
    ∷ ("issues", list (of_list (map issue_fields v.issues)))
    ∷ ("raw_properties", v.raw_properties)
    ∷ ("raw_driver_options", v.raw_driver_options)
    ∷ ("raw_secrets", v.raw_secrets)
    ∷ []

-- what `TypeAdapter(schema).validate_python` does with the dictionary
abbrev pub Schema : Type 0
Schema = Dict Value → Result Value

-- the dictionaries that `to_response` and `to_broken_response` validate: the extra fields last
unfoldable pub response_data : PublicConnectionView → Dict Value
response_data v = update (public_fields v) v.extra

unfoldable pub broken_response_data : BrokenPublicConnectionView → Dict Value
broken_response_data v = update (broken_fields v) v.extra

-- `to_response`
unfoldable pub to_response : Schema → PublicConnectionView → Result Value
to_response schema v = schema (response_data v)

-- `to_broken_response`
unfoldable pub to_broken_response : Schema → BrokenPublicConnectionView → Result Value
to_broken_response schema v = schema (broken_response_data v)

get-keep_if :
    (k : String) (p : String → Bool) (d : Dict Value)
    → get k (keep_if (λ kv. p kv.0) d) ≡ (if p k then get k d else none)
get-keep_if k p [] = ground arith
get-keep_if k p ((j, v) ∷ d) = ground (arith, get-keep_if k p d, eq_iff j k)

-- The extra fields of a created draft are exactly the fields of the request that are no field of a
-- draft, with the values they had in the request.
pub to_create_draft_extra :
    (r : CreateRequest) (k : String)
    → get k (field_of (to_create_draft r).extra)
      ≡ (if elem k build_draft_fields then none else get k r.extra_fields)
unfolding to_create_draft extract_draft_extra build_draft_fields
to_create_draft_extra r k =
    get-keep_if k (λ j. not (elem j build_draft_fields)) (dump_request r) ∙ ground arith

get_last_or :
    (k : String) (e : Dict Value) (o : Option Value) → get_last k e o ≡ or_get (get_last k e none) o
get_last_or k [] o = refl
get_last_or k ((j, v) ∷ e) o = elim (Bool-cases (j == k)) [
  | inl h ↦ let i = get_last_or k e (some v) in ground arith
  | inr h ↦ rw h (get_last_or k e o)
]

-- In both kinds of response a field shows the last value that the extra fields of the connection
-- have under its name, if they have one, and only else the view's own: an extra field hides any
-- field of the view, the id and the issues included.
pub response_data_lem :
    (v : PublicConnectionView) (b : BrokenPublicConnectionView) (k : String)
    → (get k (response_data v) ≡ or_get (get_last k v.extra none) (get k (public_fields v)))
      × (get k (broken_response_data b)
          ≡ or_get (get_last k b.extra none) (get k (broken_fields b)))
unfolding response_data broken_response_data
response_data_lem v b k = (
  get-update k (public_fields v) v.extra ∙ get_last_or k v.extra (get k (public_fields v)),
  get-update k (broken_fields b) b.extra ∙ get_last_or k b.extra (get k (broken_fields b)),
)
