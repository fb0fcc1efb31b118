-- ===== src/DriverOptions/Acceptance.antt =====
-- Which driver options are accepted, stated without the code's order of tests.
use db_connections.Domain.{DriverSpec, Model, Payload, TypeSpec, valid}
use db_connections.DriverOptions.{
  is_empty_driver_options, resolve_driver_spec, takes_no_options, validate_driver_options,
}
use db_connections.Errors.{Error, code}
use db_connections.Prelude.{
  Option, Option-cases, String, arith, false, inl, inr, none, some, true, ◌↔◌, ◌≡◌,
}
use db_connections.Result.{err, ok}

-- The options that a type accepts under a driver, and what they become.
abbrev pub Accepts : TypeSpec → Payload → Option String → Option Model → Type 0
Accepts spec raw none none = is_empty_driver_options raw ≡ true
Accepts spec raw none (some m) = ⊥
Accepts spec raw (some driver) none =
    (d : DriverSpec) × (resolve_driver_spec spec driver ≡ some d)
    × (takes_no_options d ≡ true)
    × (is_empty_driver_options raw ≡ true)
Accepts spec raw (some driver) (some m) =
    (d : DriverSpec) × (resolve_driver_spec spec driver ≡ some d)
    × (takes_no_options d ≡ false)
    × (d.options_model.model_validate raw ≡ valid m)

module _ (spec : TypeSpec) (t : String) (raw : Payload) where
  accepted-Accepts :
      (driver : Option String) (o : Option Model)
      → validate_driver_options spec t driver raw ≡ ok o
      → Accepts spec raw driver o
  unfolding validate_driver_options
  accepted-Accepts none none h = ground arith
  accepted-Accepts none (some m) h = ground arith
  accepted-Accepts (some driver) none h = elim (Option-cases (resolve_driver_spec spec driver)) [
    | inl unknown ↦ ground arith
    | inr (d, found) ↦ (d, found, ground arith, ground arith)
  ]
  accepted-Accepts (some driver) (some m) h =
      elim (Option-cases (resolve_driver_spec spec driver)) [
        | inl unknown ↦ ground arith
        | inr (d, found) ↦ (d, found, ground arith, ground arith)
      ]

  Accepts-accepted :
      (driver : Option String) (o : Option Model)
      → Accepts spec raw driver o
      → validate_driver_options spec t driver raw ≡ ok o
  unfolding validate_driver_options
  Accepts-accepted none none h = ground arith
  Accepts-accepted none (some m) h = absurd h
  Accepts-accepted (some driver) none h = ground arith
  Accepts-accepted (some driver) (some m) h = ground arith

  -- Validation returns exactly what is acceptable: nothing where the type or the driver takes no
  -- options and none are given, and the validated instance where the driver has an options model.
  pub validate_driver_options-Accepts :
      (driver : Option String) (o : Option Model)
      → validate_driver_options spec t driver raw ≡ ok o ↔ Accepts spec raw driver o
  validate_driver_options-Accepts driver o = (accepted-Accepts driver o, Accepts-accepted driver o)

  -- A refusal is always a `ValidationFailedError`.
  pub validate_driver_options-error :
      (driver : Option String) (e : Error)
      → validate_driver_options spec t driver raw ≡ err e
      → code e ≡ "validation_failed"
  unfolding validate_driver_options code
  validate_driver_options-error none e h = ground arith
  validate_driver_options-error (some driver) e h = ground arith
