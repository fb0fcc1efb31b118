-- ===== src/Api/Listings.antt =====
-- fastapi/extension.py: the routes that list the kinds and the types a client may choose from.
-- `ConnectionKindInfoResponse`
use db_connections.Dict.{Dict}
use db_connections.Domain.{DriverSpec, KindSpec, ModelClass, TypeSpec}
use db_connections.DriverOptions.{public_options}
use db_connections.Prelude.{List, Option, String, [], arith, inl, inr, map, none, some, ◌∷◌, ◌≡◌}
use db_connections.Registry.{ConnectionRegistry, list_kinds, list_types}
use db_connections.Result.{Result, Result-cases, ok, passed, ◌>>=◌}
use db_connections.Sorting.{sorted}
use db_connections.Tests.Data.{registry}
use db_connections.Value.{Value}

pub record KindInfo : Type 0 where
  pub name : String
  pub description : String
  pub capabilities : List String

-- `ConnectionDriverInfoResponse`
pub record DriverInfo : Type 0 where
  pub name : String
  pub options_schema : Dict Value
  pub public_options_schema : Option (Dict Value)
  pub tags : List String

-- `ConnectionTypeInfoResponse`
pub record TypeInfo : Type 0 where
  pub name : String
  pub kind : String
  pub default_driver : Option String
  pub drivers : List DriverInfo
  pub supported_drivers : List String
  pub capabilities : List String
  pub tags : List String
  pub properties_schema : Dict Value
  pub secrets_schema : Option (Dict Value)
  pub public_schema : Option (Dict Value)

unfoldable kind_info : KindSpec → KindInfo
kind_info spec = record {
  name = spec.name;
  description = spec.description;
  capabilities = spec.capabilities;
}

-- `list_kinds`
unfoldable kinds_route : ConnectionRegistry → List KindInfo
kinds_route registry = map kind_info (list_kinds registry)

-- pydantic's `model_json_schema(by_alias=False)`, which may raise, is given
module _ (json_schema : ModelClass → Result (Dict Value)) where
  unfoldable schema_of : Option ModelClass → Result (Option (Dict Value))
  schema_of none = ok none
  schema_of (some c) = do schema ← json_schema c; ok (some schema)

  -- a driver spec always has a model of public options, once it is made
  unfoldable driver_info : DriverSpec → Result DriverInfo
  driver_info spec = do
    options ← json_schema spec.options_model
    public_options ← json_schema spec.public_options_model
    ok (record {
      name = spec.name;
      options_schema = options;
      public_options_schema = some public_options;
      tags = sorted (λ t. t) spec.tags;
    })

  unfoldable driver_infos : List DriverSpec → Result (List DriverInfo)
  driver_infos [] = ok []
  driver_infos (spec ∷ specs) = do
    info ← driver_info spec
    infos ← driver_infos specs
    ok (info ∷ infos)

  unfoldable type_info : TypeSpec → Result TypeInfo
  type_info spec = do
    drivers ← driver_infos spec.driver_specs
    properties ← json_schema spec.properties_model
    secrets ← schema_of spec.secrets_model
    public_ ← schema_of spec.public_model
    ok (record {
      name = spec.name;
      kind = spec.kind;
      default_driver = spec.default_driver;
      drivers = drivers;
      supported_drivers = sorted (λ t. t) spec.supported_drivers;
      capabilities = sorted (λ t. t) spec.capabilities;
      tags = sorted (λ t. t) spec.tags;
      properties_schema = properties;
      secrets_schema = secrets;
      public_schema = public_;
    })

  unfoldable type_infos : List TypeSpec → Result (List TypeInfo)
  type_infos [] = ok []
  type_infos (spec ∷ specs) = do info ← type_info spec; infos ← type_infos specs; ok (info ∷ infos)

  -- `list_types`
  unfoldable types_route : ConnectionRegistry → Result (List TypeInfo)
  types_route registry = type_infos (list_types none registry)

  -- the identity of a type, as it is listed
  abbrev info_key : TypeInfo → String × String
  info_key info = (info.name, info.kind)

  abbrev spec_key : TypeSpec → String × String
  spec_key spec = (spec.name, spec.kind)

  type_info_key :
      (spec : TypeSpec) (info : TypeInfo) → type_info spec ≡ ok info → info_key info ≡ spec_key spec
  unfolding type_info
  type_info_key spec info h =
      let (drivers, e1, h1) = passed (driver_infos spec.driver_specs) _ info h in
      let (properties, e2, h2) = passed (json_schema spec.properties_model) _ info h1 in
      let (secrets, e3, h3) = passed (schema_of spec.secrets_model) _ info h2 in
      let (shown, e4, h4) = passed (schema_of spec.public_model) _ info h3 in ground arith

  type_infos_lem :
      (specs : List TypeSpec) (infos : List TypeInfo)
      → type_infos specs ≡ ok infos
      → map info_key infos ≡ map spec_key specs
  unfolding type_infos
  type_infos_lem [] infos h = ground arith
  type_infos_lem (spec ∷ specs) infos h = elim (Result-cases (type_info spec)) [
    | inl (info, e) ↦ elim (Result-cases (type_infos specs)) [
      | inl (rest, e1) ↦
          let same = type_info_key spec info e in
          let others = type_infos_lem specs rest e1 in ground arith
      | inr (x, e1) ↦ ground arith
    ]
    | inr (x, e) ↦ ground arith
  ]

  -- Where the route answers, it lists every registered type, each with its name and kind, in the
  -- order of the registry's own listing.
  types_route_lem :
      (r : ConnectionRegistry) (infos : List TypeInfo)
      → types_route r ≡ ok infos
      → map info_key infos ≡ map spec_key (list_types none r)
  unfolding types_route
  types_route_lem r infos h = type_infos_lem _ infos h
