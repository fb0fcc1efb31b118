-- ===== src/DriverOptions.antt =====
-- application/_driver_options.py: which driver options a connection type accepts.
pub mod Acceptance
pub mod Public
use db_connections.Dict.{Dict}
use db_connections.Domain.{
  Checked, DriverSpec, Model, Payload, TypeSpec, absent, instance_of, invalid, mapping,
  no_driver_options_ref, plain, valid,
}
use db_connections.Errors.{Error, validation_failed}
use db_connections.Prelude.{
  Bool, Option, String, [], false, find_first, if◌then◌else◌, is_nonempty, none, not, quote, some,
  true, ◌==◌, ◌∷◌,
}
use db_connections.Result.{Result, err, ok, ◌>>=◌, ◌>>◌}
use db_connections.Value.{Value, str, truthy_value}

-- `resolve_driver_spec`: the first spec of that name
unfoldable pub resolve_driver_spec : TypeSpec → String → Option DriverSpec
resolve_driver_spec spec driver_name =
    find_first (λ (d : DriverSpec). d.name == driver_name) spec.driver_specs

-- `is_empty_driver_options`
unfoldable pub is_empty_driver_options : Payload → Bool
is_empty_driver_options absent = true
is_empty_driver_options (instance_of m) = not (is_nonempty m.dump_python)
is_empty_driver_options (mapping d) = not (is_nonempty d)
is_empty_driver_options (plain v) = not (truthy_value v)

-- `{"driver": effective_driver, "type": connection_type, "errors": exc.errors()}`
abbrev option_details : String → String → Value → Dict Value
option_details driver connection_type errors =
    ("driver", str driver) ∷ ("type", str connection_type) ∷ ("errors", errors) ∷ []

-- the body of `try: return options_model.model_validate(raw_options)`
abbrev checked_options : String → String → String → Checked → Result Model
checked_options text driver connection_type (valid m) = ok m
checked_options text driver connection_type (invalid e) =
    err (validation_failed text (option_details driver connection_type e))

-- `driver_spec.options_model is NoDriverOptions`
abbrev pub takes_no_options : DriverSpec → Bool
takes_no_options d = d.options_model.ref == no_driver_options_ref

abbrev none_or_refuse : Bool → Error → Result (Option Model)
none_or_refuse true e = ok none
none_or_refuse false e = err e

-- the options under a driver that the type declares
abbrev with_spec : DriverSpec → String → String → Payload → Result (Option Model)
with_spec d connection_type driver raw =
    if takes_no_options d
    then none_or_refuse (is_empty_driver_options raw) (
        validation_failed
          (quote (quote "Driver '" driver "' for type '") connection_type
            "' does not accept driver options.")
          [])
    else checked_options "Driver options validation failed." driver connection_type
        (d.options_model.model_validate raw)
      >>= λ m. ok (some m)

unfoldable pub validate_driver_options :
    TypeSpec → String → Option String → Payload → Result (Option Model)
validate_driver_options spec connection_type none raw =
    none_or_refuse (is_empty_driver_options raw) (
      validation_failed (quote "Driver options are not supported for type '" connection_type "'.")
        [])
validate_driver_options spec connection_type (some driver) raw =
    elim (resolve_driver_spec spec driver) [
      | none ↦ err (
          validation_failed
            (quote (quote "Driver '" driver "' is not supported for type '") connection_type "'.")
            [])
      | some d ↦ with_spec d connection_type driver raw
    ]

-- the tail of `build_public_driver_options`, for options that are there
unfoldable pub public_options : TypeSpec → String → Option String → Model → Result (Option Model)
public_options spec connection_type none m = ok none
public_options spec connection_type (some driver) m = elim (resolve_driver_spec spec driver) [
  | none ↦ ok none
  | some d ↦
      checked_options "Stored driver options payload is invalid." driver connection_type
        (d.public_options_model.model_validate (mapping m.dump_python))
      >>= λ p. ok (some p)
]

unfoldable pub build_public_driver_options :
    TypeSpec → String → Option String → Payload → Result (Option Model)
build_public_driver_options spec connection_type driver raw = do
  validated ← validate_driver_options spec connection_type driver raw
  elim validated [ none ↦ ok none | some m ↦ public_options spec connection_type driver m ]
