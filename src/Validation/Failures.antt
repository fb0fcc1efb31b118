-- ===== src/Validation/Failures.antt =====
-- How validation fails.
use db_connections.Domain.{ConnectionEnvelope, ValidatedConnection}
use db_connections.Errors.{Error, map_exception, other_error}
use db_connections.Prelude.{Bool, arith, inl, inr, is_none, none, refl, ◌||◌, ◌≡◌}
use db_connections.Registry.{ConnectionRegistry, get_type}
use db_connections.Result.{Result-cases, err, ok}
use db_connections.Validation.{dict_of, validate, validate_against}

-- whether a descriptive field holds `None`
abbrev pub has_none : ConnectionEnvelope → Bool
has_none d = is_none d.labels || (is_none d.metadata || is_none d.extra)

-- the `TypeError` that `dict(None)` raises
abbrev pub none_error : Error
none_error = other_error "TypeError" "'NoneType' object is not iterable"

-- A draft that is valid but for labels that are `None` is refused by a `TypeError`, which the error
-- mapper answers with status 500.
pub validate_without_labels :
    (registry : ConnectionRegistry) (draft : ConnectionEnvelope) (v : ValidatedConnection)
    → validate registry draft ≡ ok v
    → (validate registry (record draft { labels = none }) ≡ err none_error)
      × ((map_exception none_error).status_code ≡ 500)
unfolding validate validate_against dict_of map_exception
validate_without_labels registry draft v h = elim (Result-cases (get_type draft.type registry)) [
  | inl (spec, found) ↦ (ground arith, refl)
  | inr (e, unknown) ↦ (ground arith, refl)
]
