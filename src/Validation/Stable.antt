-- ===== src/Validation/Stable.antt =====
-- Drafts that were validated and stored validate again, to the same connection.
use db_connections.Domain.{
  ConnectionDraft, ConnectionEnvelope, DriverSpec, Model, ModelClass, Payload, TypeSpec,
  ValidatedConnection, dump_secrets, instance_of, mapping, of_model, payload_of, valid,
}
use db_connections.DriverOptions.{is_empty_driver_options, resolve_driver_spec}
use db_connections.DriverOptions.Acceptance.{Accepts}
use db_connections.Prelude.{Option, String, arith, none, refl, some, subst, ◌≡◌}
use db_connections.Registry.{ConnectionRegistry, get_type}
use db_connections.Result.{ok}
use db_connections.Service.{to_persisted_draft}
use db_connections.Validation.{dict_of, validate}
use db_connections.Validation.Contract.{Conforms, SecretsMatch, validate-Conforms}

-- a model class reads the JSON dump of its own instance as that instance
abbrev pub ReadsDumps : ModelClass → Type 0
ReadsDumps c =
    (p : Payload) (m : Model)
    → c.model_validate p ≡ valid m
    → c.model_validate (mapping m.dump_json) ≡ valid m

-- a model class takes an instance of its own as it is
abbrev pub TakesInstances : ModelClass → Type 0
TakesInstances c =
    (p : Payload) (m : Model)
    → c.model_validate p ≡ valid m
    → c.model_validate (instance_of m) ≡ valid m

abbrev pub SecretsReadDumps : Option ModelClass → Type 0
SecretsReadDumps none = Unit
SecretsReadDumps (some c) = ReadsDumps c

pub record IsStable (spec : TypeSpec) : Type 0 where
  pub properties : ReadsDumps spec.properties_model
  pub secrets : SecretsReadDumps spec.secrets_model
  pub options :
      (driver : String) (d : DriverSpec)
      → resolve_driver_spec spec driver ≡ some d
      → TakesInstances d.options_model

secrets_again :
    (c : Option ModelClass) (raw : Payload) (s : Option Model)
    → SecretsReadDumps c
    → SecretsMatch c raw s
    → SecretsMatch c (mapping (dump_secrets s)) s
secrets_again none raw none h m = tt
secrets_again none raw (some s) h m = m
secrets_again (some c) raw none h m = m
secrets_again (some c) raw (some s) h m = h raw s m

options_again :
    (spec : TypeSpec) (raw : Payload) (driver : Option String) (o : Option Model)
    → IsStable spec
    → Accepts spec raw driver o
    → Accepts spec (of_model o) driver o
unfolding is_empty_driver_options
options_again spec raw none none st a = refl
options_again spec raw none (some m) st a = a
options_again spec raw (some driver) none st (d, found, takes, empty) = (d, found, takes, refl)
options_again spec raw (some driver) (some m) st (d, found, takes, good) =
    (d, found, takes, st.options driver d found raw m good)

-- the draft that is stored of a validated source
abbrev persisted_of : ConnectionEnvelope → ValidatedConnection → ConnectionDraft
persisted_of source v = record source {
  driver_options = of_model v.driver_options;
  properties = some v.properties.dump_json;
  secrets = some (dump_secrets v.secrets);
  labels = some v.labels;
  metadata = some v.metadata;
  extra = some v.extra;
}

persisted-Conforms :
    (spec : TypeSpec) (source : ConnectionEnvelope) (v : ValidatedConnection)
    → IsStable spec
    → Conforms spec source v
    → Conforms spec (persisted_of source v) v
persisted-Conforms spec source v st c = record {
  kind_matches = c.kind_matches;
  driver_effective = c.driver_effective;
  driver_supported = c.driver_supported;
  properties_valid = st.properties (payload_of source.properties) v.properties c.properties_valid;
  secrets_valid =
      secrets_again spec.secrets_model (payload_of source.secrets) v.secrets st.secrets
        c.secrets_valid;
  options_valid =
      options_again spec source.driver_options v.driver v.driver_options st c.options_valid;
  same_name = c.same_name;
  same_kind = c.same_kind;
  same_type = c.same_type;
  same_labels = refl;
  same_metadata = refl;
  same_extra = refl;
}

-- What the service persists of a validated draft passes validation again, with the same result, if
-- the models of its type read their own dumps and driver options models take their own instances.
pub persisted_revalidates :
    (registry : ConnectionRegistry) (spec : TypeSpec) (source d : ConnectionEnvelope)
    (v : ValidatedConnection)
    → get_type source.type registry ≡ ok spec
    → IsStable spec
    → validate registry source ≡ ok v
    → to_persisted_draft source v ≡ ok d
    → validate registry d ≡ ok v
unfolding to_persisted_draft dict_of
persisted_revalidates registry spec source d v known st h p =
    let (spec', known', c) = (validate-Conforms registry source v).0 h in
    let same : spec' ≡ spec = cc (known, known') in
    let stored : persisted_of source v ≡ d =
      ground (arith, c.same_labels, c.same_metadata, c.same_extra) in
    subst (λ e. validate registry e ≡ ok v) stored
      ((validate-Conforms registry (persisted_of source v) v).1 (
        spec,
        known,
        persisted-Conforms spec source v st (subst (λ t. Conforms t source v) same c),
      ))
