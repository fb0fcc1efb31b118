-- ===== src/Projection.antt =====
-- application/public_projection.py: the views of a stored record that clients may read. A view has
-- no secrets; a broken one shows the raw payloads that could not be read, and why.
pub mod ReadView
pub mod Parts
pub mod Laws
use db_connections.Dict.{Dict}
use db_connections.Domain.{
  Checked, ConnectionRecord, Model, StoredConnectionIssue, Time, TypeSpec, absent, instance_of,
  invalid, mapping, payload_of, plain, valid,
}
use db_connections.DriverOptions.{build_public_driver_options}
use db_connections.Errors.{validation_failed}
use db_connections.Prelude.{
  List, Option, String, [], get_or, if◌then◌else◌, none, or_else, some, ◌∷◌,
}
use db_connections.Registry.{ConnectionRegistry, get_type}
use db_connections.Result.{Result, err, ok, ◌>>=◌, ◌>>◌}
use db_connections.Validation.{dict_of}
use db_connections.Value.{Value, is_null, null, of_dict}

pub record PublicConnectionView : Type 0 where
  pub id : String
  pub name : Option String
  pub kind : String
  pub type : String
  pub driver : Option String
  pub driver_options : Option Model
  pub properties : Model
  pub labels : Dict Value
  pub metadata : Dict Value
  pub created_at : Time
  pub updated_at : Time
  pub deleted_at : Option Time
  pub extra : Dict Value

pub record BrokenPublicConnectionView : Type 0 where
  pub id : String
  pub name : Option String
  pub kind : String
  pub type : String
  pub driver : Option String
  pub labels : Dict Value
  pub metadata : Dict Value
  pub created_at : Time
  pub updated_at : Time
  pub deleted_at : Option Time
  pub extra : Dict Value
  pub issues : List StoredConnectionIssue
  pub raw_properties : Value
  pub raw_driver_options : Value
  pub raw_secrets : Value
  pub state : String

pub data View : Type 0 where
  public : PublicConnectionView → View
  broken : BrokenPublicConnectionView → View

-- `properties_model.model_validate(...)` and then the public model's, on the dump
unfoldable pub project_properties : TypeSpec → ConnectionRecord → Checked
project_properties spec record_ =
    elim (spec.properties_model.model_validate (payload_of record_.properties)) [
      | invalid e ↦ invalid e
      | valid m ↦
          (get_or spec.public_model spec.properties_model).model_validate (mapping m.dump_python)
    ]

abbrev pub effective_driver : TypeSpec → ConnectionRecord → Option String
effective_driver spec record_ = or_else record_.driver spec.default_driver

-- the constructor call at the end of `build` and of `build_any`
unfoldable pub public_view : ConnectionRecord → Option Model → Model → Result PublicConnectionView
public_view r options properties = do
  labels ← dict_of r.labels
  metadata ← dict_of r.metadata
  extra ← dict_of r.extra
  ok (record {
    id = r.id;
    name = r.name;
    kind = r.kind;
    type = r.type;
    driver = r.driver;
    driver_options = options;
    properties = properties;
    labels = labels;
    metadata = metadata;
    created_at = r.created_at;
    updated_at = r.updated_at;
    deleted_at = r.deleted_at;
    extra = extra;
  })

abbrev stored_properties : Checked → Result Model
stored_properties (valid m) = ok m
stored_properties (invalid e) =
    err (validation_failed "Stored connection payload is invalid." (("errors", e) ∷ []))

-- `ConnectionPublicProjector.build`
unfoldable pub build : ConnectionRegistry → ConnectionRecord → Result PublicConnectionView
build registry r = do
  spec ← get_type r.type registry
  properties ← stored_properties (project_properties spec r)
  options ← build_public_driver_options spec r.type (effective_driver spec r) r.driver_options
  public_view r options properties

-- `_get_raw_properties`
pub get_raw_properties : ConnectionRecord → Value
get_raw_properties r =
    if is_null r.raw_properties
    then elim r.properties [ none ↦ null | some d ↦ of_dict d ]
    else r.raw_properties

-- `_get_raw_driver_options`
pub get_raw_driver_options : ConnectionRecord → Value
get_raw_driver_options r =
    if is_null r.raw_driver_options
    then elim r.driver_options [
      | absent ↦ null
      | mapping d ↦ of_dict d
      | instance_of m ↦ of_dict m.dump_python
      | plain v ↦ v
    ]
    else r.raw_driver_options

-- `_build_broken_view`
unfoldable pub build_broken_view :
    ConnectionRecord → List StoredConnectionIssue → Value → Result BrokenPublicConnectionView
unfolding get_raw_properties get_raw_driver_options
build_broken_view r issues raw_secrets = do
  labels ← dict_of r.labels
  metadata ← dict_of r.metadata
  extra ← dict_of r.extra
  ok (record {
    id = r.id;
    name = r.name;
    kind = r.kind;
    type = r.type;
    driver = r.driver;
    labels = labels;
    metadata = metadata;
    created_at = r.created_at;
    updated_at = r.updated_at;
    deleted_at = r.deleted_at;
    extra = extra;
    issues = issues;
    raw_properties = get_raw_properties r;
    raw_driver_options = get_raw_driver_options r;
    raw_secrets = raw_secrets;
    state = "invalid";
  })
