-- ===== src/DriverOptions/Public.antt =====
-- `build_public_driver_options` shows the validated options through the driver's public model.
use db_connections.Dict.{Dict}
use db_connections.Domain.{DriverSpec, Model, Payload, TypeSpec, mapping, valid}
use db_connections.DriverOptions.{
  build_public_driver_options, public_options, resolve_driver_spec, validate_driver_options,
}
use db_connections.DriverOptions.Acceptance.{Accepts, validate_driver_options-Accepts}
use db_connections.Errors.{Error, validation_failed}
use db_connections.Prelude.{Option, Option-cases, String, arith, inl, inr, none, some, ◌≡◌}
use db_connections.Result.{Result-cases, err, ok}
use db_connections.Value.{Value}

-- what is shown of validated options: their dump, read by the public model of the driver
abbrev pub IsShown : TypeSpec → Option String → Model → Model → Type 0
IsShown spec none m p = ⊥
IsShown spec (some driver) m p =
    (d : DriverSpec) × (resolve_driver_spec spec driver ≡ some d)
    × (d.public_options_model.model_validate (mapping m.dump_python) ≡ valid p)

shown :
    (spec : TypeSpec) (t : String) (driver : Option String) (m p : Model)
    → public_options spec t driver m ≡ ok (some p)
    → IsShown spec driver m p
unfolding public_options
shown spec t none m p h = ground arith
shown spec t (some driver) m p h = elim (Option-cases (resolve_driver_spec spec driver)) [
  | inl unknown ↦ ground arith
  | inr (d, found) ↦ (d, found, ground arith)
]

module _ (spec : TypeSpec) (t : String) (raw : Payload) where
  -- a refusal is always a `ValidationFailedError`, with these parts
  pub build_public_driver_options-error :
      (driver : Option String) (e : Error)
      → build_public_driver_options spec t driver raw ≡ err e
      → (m : String) × (d : Dict Value) × (e ≡ validation_failed m d)
  unfolding build_public_driver_options validate_driver_options public_options
  build_public_driver_options-error none e h = ground arith
  build_public_driver_options-error (some driver) e h = ground arith

  -- Options are shown only under a driver that the type declares with an options model, and they
  -- are the public model's reading of the dump of the validated instance.
  pub build_public_driver_options-some :
      (driver : Option String) (p : Model)
      → build_public_driver_options spec t driver raw ≡ ok (some p)
      → (m : Model) × Accepts spec raw driver (some m) × IsShown spec driver m p
  unfolding build_public_driver_options
  build_public_driver_options-some driver p h =
      elim (Result-cases (validate_driver_options spec t driver raw)) [
        | inr (e, refused) ↦ ground arith
        | inl (none, nothing) ↦ ground arith
        | inl (some m, checked) ↦ (
          m,
          (validate_driver_options-Accepts spec t raw driver (some m)).0 checked,
          shown spec t driver m p (ground arith),
        )
      ]
