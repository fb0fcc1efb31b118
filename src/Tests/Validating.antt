-- ===== src/Tests/Validating.antt =====
-- The theorems on validation and driver options at a draft that is valid and at one that is not.
use db_connections.Domain.{DriverSpec, TypeSpec}
use db_connections.DriverOptions.{resolve_driver_spec, validate_driver_options}
use db_connections.DriverOptions.Acceptance.{Accepts, validate_driver_options-Accepts}
use db_connections.Errors.{Error, map_exception, validation_failed}
use db_connections.Prelude.{String, [], arith, none, refl, some, subst, ◌↔◌, ◌≡◌}
use db_connections.Registry.{get_type}
use db_connections.Result.{err, ok}
use db_connections.Service.{to_persisted_draft}
use db_connections.Tests.Data.{
  pg_connection, pg_draft, pg_driver, pg_options, pg_type, registry, ssl_options, stored_draft,
}
use db_connections.Validation.{dict_of, validate, validate_against}
use db_connections.Validation.Contract.{Conforms, validate-Conforms}
use db_connections.Validation.Failures.{none_error, validate_without_labels}
use db_connections.Validation.Stable.{IsStable, TakesInstances, persisted_revalidates}

validate-Conforms_example : validate registry pg_draft ≡ ok pg_connection ↔ (
    (spec : TypeSpec) × (get_type "postgresql" registry ≡ ok spec)
    × Conforms spec pg_draft pg_connection)
validate-Conforms_example = validate-Conforms registry pg_draft pg_connection

abbrev kind_error : Error
kind_error = validation_failed "Type 'postgresql' belongs to kind 'sql', received 'http'." []

validate_without_labels_example :
    (validate registry (record pg_draft { labels = none }) ≡ err none_error)
    × ((map_exception none_error).status_code ≡ 500)
unfolding validate validate_against validate_driver_options resolve_driver_spec dict_of get_type
validate_without_labels_example = validate_without_labels registry pg_draft pg_connection refl

found_is_pg :
    (driver : String) (d : DriverSpec) → resolve_driver_spec pg_type driver ≡ some d → pg_driver ≡ d
unfolding resolve_driver_spec
found_is_pg driver d h = ground arith

pg_options-TakesInstances : TakesInstances pg_options
pg_options-TakesInstances p m h = ground arith

pg_type-IsStable : IsStable pg_type
pg_type-IsStable = record {
  properties = λ p m h. ground arith;
  secrets = λ p m h. ground arith;
  options = λ driver d found p m h.
      subst (λ (e : DriverSpec). TakesInstances e.options_model) (found_is_pg driver d found)
        pg_options-TakesInstances p m h;
}

persisted_revalidates_example : validate registry stored_draft ≡ ok pg_connection
unfolding validate validate_against validate_driver_options resolve_driver_spec dict_of get_type
    to_persisted_draft
persisted_revalidates_example =
    persisted_revalidates registry pg_type pg_draft stored_draft pg_connection refl pg_type-IsStable
      refl refl

validate_driver_options-Accepts_example :
    validate_driver_options pg_type "postgresql" (some "asyncpg") pg_draft.driver_options
      ≡ ok (some ssl_options)
    ↔ Accepts pg_type pg_draft.driver_options (some "asyncpg") (some ssl_options)
validate_driver_options-Accepts_example =
    validate_driver_options-Accepts pg_type "postgresql" pg_draft.driver_options (some "asyncpg")
      (some ssl_options)
