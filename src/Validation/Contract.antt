-- ===== src/Validation/Contract.antt =====
-- What `validate` promises: a result that meets every part of the type's specification, and for
-- every draft that meets it such a result.
use db_connections.Domain.{
  ConnectionEnvelope, Model, ModelClass, Payload, TypeSpec, ValidatedConnection, payload_of, valid,
}
use db_connections.DriverOptions.{validate_driver_options}
use db_connections.DriverOptions.Acceptance.{Accepts, validate_driver_options-Accepts}
use db_connections.Prelude.{
  Option, String, arith, eq_iff, false, inl, inr, none, or_else, refl, some, true, ◌==◌, ◌↔◌, ◌≡◌,
}
use db_connections.Registry.{ConnectionRegistry, get_type}
use db_connections.Result.{Result-cases, ok}
use db_connections.Validation.{checked_secrets, dict_of, is_unsupported, validate, validate_against}

-- what the secrets become: nothing without a secrets model, else the validated instance
abbrev pub SecretsMatch : Option ModelClass → Payload → Option Model → Type 0
SecretsMatch none raw none = Unit
SecretsMatch none raw (some m) = ⊥
SecretsMatch (some c) raw none = ⊥
SecretsMatch (some c) raw (some m) = c.model_validate raw ≡ valid m

-- A validated connection meets the specification of its type.
pub record Conforms (spec : TypeSpec) (draft : ConnectionEnvelope) (v : ValidatedConnection)
    : Type 0 where
  pub kind_matches : draft.kind ≡ spec.kind
  pub driver_effective : v.driver ≡ or_else draft.driver spec.default_driver
  pub driver_supported : is_unsupported v.driver spec.supported_drivers ≡ false
  pub properties_valid :
      spec.properties_model.model_validate (payload_of draft.properties) ≡ valid v.properties
  pub secrets_valid : SecretsMatch spec.secrets_model (payload_of draft.secrets) v.secrets
  pub options_valid : Accepts spec draft.driver_options v.driver v.driver_options
  pub same_name : v.name ≡ draft.name
  pub same_kind : v.kind ≡ draft.kind
  pub same_type : v.type ≡ draft.type
  pub same_labels : draft.labels ≡ some v.labels
  pub same_metadata : draft.metadata ≡ some v.metadata
  pub same_extra : draft.extra ≡ some v.extra

checked_secrets-SecretsMatch :
    (c : Option ModelClass) (raw : Payload) (s : Option Model)
    → checked_secrets c raw ≡ ok s
    → SecretsMatch c raw s
checked_secrets-SecretsMatch none raw none h = tt
checked_secrets-SecretsMatch none raw (some m) h = ground arith
checked_secrets-SecretsMatch (some c) raw none h = ground arith
checked_secrets-SecretsMatch (some c) raw (some m) h = ground arith

SecretsMatch-checked_secrets :
    (c : Option ModelClass) (raw : Payload) (s : Option Model)
    → SecretsMatch c raw s
    → checked_secrets c raw ≡ ok s
SecretsMatch-checked_secrets none raw none h = refl
SecretsMatch-checked_secrets none raw (some m) h = absurd h
SecretsMatch-checked_secrets (some c) raw none h = absurd h
SecretsMatch-checked_secrets (some c) raw (some m) h = ground arith

module _ (spec : TypeSpec) (draft : ConnectionEnvelope) (v : ValidatedConnection) where
  abbrev chosen : Option String
  chosen = or_else draft.driver spec.default_driver

  -- what a successful run passed through
  passed :
      validate_against spec draft ≡ ok v
      → ((draft.kind == spec.kind) ≡ true)
        × (is_unsupported chosen spec.supported_drivers ≡ false)
        × (spec.properties_model.model_validate (payload_of draft.properties) ≡ valid v.properties)
        × (checked_secrets spec.secrets_model (payload_of draft.secrets) ≡ ok v.secrets)
        × (validate_driver_options spec draft.type chosen draft.driver_options
            ≡ ok v.driver_options)
        × (draft.labels ≡ some v.labels)
        × (draft.metadata ≡ some v.metadata)
        × (draft.extra ≡ some v.extra)
        × (v.name ≡ draft.name)
        × (v.kind ≡ draft.kind)
        × (v.type ≡ draft.type)
        × (v.driver ≡ chosen)
  unfolding validate_against dict_of
  passed h = ground arith

  against-Conforms : validate_against spec draft ≡ ok v → Conforms spec draft v
  against-Conforms h =
      let (k, u, p, s, o, l, m, x, n, k', t', d') = passed h in
      record {
        kind_matches = (eq_iff draft.kind spec.kind).0 k;
        driver_effective = d';
        driver_supported = rw d' u;
        properties_valid = p;
        secrets_valid =
            checked_secrets-SecretsMatch spec.secrets_model (payload_of draft.secrets) v.secrets s;
        options_valid = rw d' (
            (validate_driver_options-Accepts spec draft.type draft.driver_options chosen
                v.driver_options).0
              o);
        same_name = n;
        same_kind = k';
        same_type = t';
        same_labels = l;
        same_metadata = m;
        same_extra = x;
      }

  Conforms-against : Conforms spec draft v → validate_against spec draft ≡ ok v
  unfolding validate_against dict_of
  Conforms-against c = ground (
    arith,
    eq_iff draft.kind spec.kind,
    SecretsMatch-checked_secrets spec.secrets_model (payload_of draft.secrets) v.secrets
        c.secrets_valid,
    (validate_driver_options-Accepts spec draft.type draft.driver_options v.driver
          v.driver_options).1
        c.options_valid,
  )

-- Validation returns a connection exactly when the draft's type is registered and the connection
-- conforms to its specification: kind, supported driver, properties, secrets and driver options
-- accepted, and the descriptive fields those of the draft.
pub validate-Conforms :
    (registry : ConnectionRegistry) (draft : ConnectionEnvelope) (v : ValidatedConnection)
    → validate registry draft ≡ ok v
      ↔ ((spec : TypeSpec) × (get_type draft.type registry ≡ ok spec) × Conforms spec draft v)
unfolding validate
validate-Conforms registry draft v = (
  λ h. elim (Result-cases (get_type draft.type registry)) [
    | inl (spec, found) ↦ (spec, found, against-Conforms spec draft v (rw found at h))
    | inr (e, unknown) ↦ ground arith
  ],
  λ (spec, found, c). rw found (Conforms-against spec draft v c),
)
