-- ===== src/Projection/ReadView.antt =====
-- `ConnectionPublicProjector.build_any` (application/public_projection.py): a record that cannot be
-- read in full is shown as a broken view with every issue that was found.
use db_connections.Dict.{Dict}
use db_connections.Domain.{
  Checked, ConnectionRecord, Model, StoredConnectionIssue, TypeSpec, has_read_issue, invalid,
  payload_of, valid,
}
use db_connections.DriverOptions.{build_public_driver_options}
use db_connections.Errors.{other_error, validation_failed}
use db_connections.Prelude.{
  List, Option, String, [], if◌then◌else◌, is_nonempty, none, some, ◌++◌, ◌==◌, ◌||◌, ◌∷◌,
}
use db_connections.Projection.{
  View, broken, build_broken_view, effective_driver, project_properties, public, public_view,
}
use db_connections.Registry.{ConnectionRegistry, get_type}
use db_connections.Result.{Result, err, ok, ◌>>=◌}
use db_connections.Value.{Value, null, of_dict, str}

abbrev issue : String → String → String → Dict Value → StoredConnectionIssue
issue f c m d = record { field = f; code = c; message = m; details = d }

unfoldable pub unknown_type_issue : ConnectionRecord → StoredConnectionIssue
unknown_type_issue r =
    issue "type" "unknown_type" "Stored connection type is not registered."
      (("type", str r.type) ∷ [])

-- the issue of a kind that does not match
unfoldable pub kind_issues : TypeSpec → ConnectionRecord → List StoredConnectionIssue
kind_issues spec r =
    if r.kind == spec.kind
    then []
    else issue "kind" "kind_mismatch" "Stored connection kind does not match the registered type."
        (("stored_kind", str r.kind) ∷ ("expected_kind", str spec.kind) ∷ [])
      ∷ []

-- the public properties, unless they were unreadable, and what is wrong with them
unfoldable pub properties_step :
    TypeSpec → ConnectionRecord → Option Model × List StoredConnectionIssue
properties_step spec r =
    if has_read_issue r "invalid_properties" "properties"
    then (none, [])
    else elim (project_properties spec r) [
      | valid m ↦ (some m, [])
      | invalid e ↦ (
        none,
        issue "properties" "invalid_properties" "Stored connection properties payload is invalid."
              (("errors", e) ∷ [])
            ∷ [],
      )
    ]

-- the public driver options; any exception but `ValidationFailedError` goes on
unfoldable pub options_outcome :
    Result (Option Model) → Result (Option Model × List StoredConnectionIssue)
options_outcome (ok o) = ok (o, [])
options_outcome (err (validation_failed m d)) = ok (
  none,
  issue "driver_options" "invalid_driver_options"
        "Stored connection driver options payload is invalid." d
      ∷ [],
)
options_outcome (err e) = err e

unfoldable pub options_step :
    TypeSpec → ConnectionRecord → Result (Option Model × List StoredConnectionIssue)
unfolding options_outcome
options_step spec r =
    if has_read_issue r "invalid_driver_options" "driver_options"
    then ok (none, [])
    else options_outcome
        (build_public_driver_options spec r.type (effective_driver spec r) r.driver_options)

-- the check of the secrets against their model
unfoldable pub secrets_outcome : ConnectionRecord → Checked → List StoredConnectionIssue × Value
secrets_outcome r (valid m) = ([], r.raw_secrets)
secrets_outcome r (invalid e) = (
  issue "secrets" "invalid_secrets" "Stored connection secrets payload is invalid."
        (("errors", e) ∷ [])
      ∷ [],
  elim r.secrets [ none ↦ null | some d ↦ of_dict d ],
)

-- what is wrong with the secrets, and the raw secrets to show
unfoldable pub secrets_step : TypeSpec → ConnectionRecord → List StoredConnectionIssue × Value
unfolding secrets_outcome
secrets_step spec r = elim spec.secrets_model [
  | none ↦ ([], r.raw_secrets)
  | some c ↦
      if has_read_issue r "unreadable_secrets" "secrets"
        || has_read_issue r "invalid_secrets" "secrets"
      then ([], r.raw_secrets)
      else secrets_outcome r (c.model_validate (payload_of r.secrets))
]

-- `assert public_properties is not None`
abbrev pub assert_some : Option Model → Result Model
assert_some none = err (other_error "AssertionError" "")
assert_some (some m) = ok m

-- the last part of `build_any`: a broken view if there is any issue
unfoldable pub finish :
    ConnectionRecord
    → List StoredConnectionIssue
    → Value
    → Option Model
    → Option Model
    → Result View
finish r issues raw_secrets properties options =
    if is_nonempty issues
    then (build_broken_view r issues raw_secrets >>= λ v. ok (broken v))
    else assert_some properties >>= λ m. public_view r options m >>= λ v. ok (public v)

-- the issues in the order in which they are found
unfoldable pub all_issues :
    TypeSpec → ConnectionRecord → List StoredConnectionIssue → List StoredConnectionIssue
all_issues spec r options_issues =
    r.read_issues
    ++ (kind_issues spec r
        ++ ((properties_step spec r).1 ++ (options_issues ++ (secrets_step spec r).0)))

-- `build_any` once the type is known
unfoldable pub build_known : TypeSpec → ConnectionRecord → Result View
build_known spec r = options_step spec r >>= λ o.
    finish r (all_issues spec r o.1) (secrets_step spec r).1 (properties_step spec r).0 o.0

-- `ConnectionPublicProjector.build_any`
unfoldable pub build_any : ConnectionRegistry → ConnectionRecord → Result View
unfolding build_known
build_any registry r = elim (get_type r.type registry) [
  | ok spec ↦ build_known spec r
  | err e ↦ build_broken_view r (r.read_issues ++ unknown_type_issue r ∷ []) r.raw_secrets >>= λ v.
      ok (broken v)
]
