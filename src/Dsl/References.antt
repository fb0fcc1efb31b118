-- ===== src/Dsl/References.antt =====
-- dsl/loader.py: references to classes and callables, as "module.path:attribute" or
-- "module.path.attribute".
use Prim.Native.Nat.{compare, Ordering}
use Prim.Native.Char.{code as char_code}
use Prim.Native.String.{◌∷◌ as char_cons}
use db_connections.Connectors.Texts.{occurs_in, onto_first}
use db_connections.Dict.{Dict}
use db_connections.Domain.{Connector, ModelClass}
use db_connections.Errors.{Error, other_error, validation_failed}
use db_connections.Infra.OptionsColumn.{partition_colon}
use db_connections.Prelude.{
  Bool, List, Option, String, [], false, get_or, if◌then◌else◌, none, not, some, truthy, ℕ, ◌==◌,
  ◌||◌, ◌∷◌,
}
use db_connections.Result.{Result, err, ok, ◌>>=◌}
use db_connections.Value.{Value, str}

-- Python objects are opaque handles.
abbrev pub Object : Type 0
Object = ℕ

-- `import_module` and `getattr`, and what the code asks of an object: whether it is a pydantic
-- model class, and whether it can be called
pub record Importer : Type 0 where
  pub import_module : String → Result Object
  pub get_attribute : String → Object → Result Object
  pub model_class : Object → Option ModelClass
  pub as_callable : Object → Option Connector

-- `s.rpartition(".")` where a dot is found: what stands before and after the last one
unfoldable pub last_dot : String → Option (String × String)
last_dot String.[] = none
last_dot (String.◌∷◌ c s) = elim (last_dot s) [
  | some (before, after) ↦ some (char_cons c before, after)
  | none ↦ elim (compare (char_code c) b'.') [ Ordering.eq ↦ some ("", s) | _ ↦ none ]
]

-- `s.rpartition(".")` without the middle part
abbrev pub rpartition_dot : String → String × String
rpartition_dot s = get_or (last_dot s) ("", s)

-- `s.split(".")`
unfoldable pub split_dot : String → List String
split_dot String.[] = "" ∷ []
split_dot (String.◌∷◌ c s) =
    let rest = split_dot s in
    elim (compare (char_code c) b'.') [
      | Ordering.eq ↦ "" ∷ rest
      | _ ↦ onto_first (char_cons c "") rest
    ]

abbrev pub at_reference : String → Dict Value
at_reference reference = ("reference", str reference) ∷ []

abbrev pub bad_reference : String → Error
bad_reference reference =
    validation_failed
      "DSL reference must be formatted as 'module.path:attribute' or 'module.path.attribute'."
      (at_reference reference)

-- `_split_reference`
unfoldable pub split_reference : String → Result (String × String)
split_reference reference =
    let parts =
      if occurs_in ":" reference then partition_colon reference else rpartition_dot reference in
    if not (truthy parts.0) || not (truthy parts.1) then err (bad_reference reference) else ok parts

-- whether an exception is an `ImportError` or an `AttributeError`
abbrev pub is_import_error : Error → Bool
is_import_error (other_error c m) = c == "ImportError" || c == "ModuleNotFoundError"
is_import_error _ = false

abbrev pub is_attribute_error : Error → Bool
is_attribute_error (other_error c m) = c == "AttributeError"
is_attribute_error _ = false

-- `except E as exc: raise ... from exc`
abbrev pub reraise {ℓ} : {A : Type ℓ} → (Error → Bool) → Error → Result A → Result A
reraise caught e (ok a) = ok a
reraise caught e (err raised) = if caught raised then err e else err raised

module _ (importer : Importer) where
  unfoldable pub follow_attributes : List String → Object → Result Object
  follow_attributes [] current = ok current
  follow_attributes (attribute ∷ path) current =
      importer.get_attribute attribute current >>= follow_attributes path

  -- `_resolve_reference`
  unfoldable pub resolve_reference : String → Result Object
  resolve_reference reference = do
    (module_name, attribute_path) ← split_reference reference
    imported ←
        reraise is_import_error
          (validation_failed "DSL reference module could not be imported." (at_reference reference))
          (importer.import_module module_name)
    reraise is_attribute_error
        (validation_failed "DSL reference attribute could not be resolved."
          (at_reference reference))
        (follow_attributes (split_dot attribute_path) imported)

  -- `_resolve_model_class`
  unfoldable pub resolve_model_class : String → Result ModelClass
  resolve_model_class reference = do
    resolved ← resolve_reference reference
    elim (importer.model_class resolved) [
      | none ↦ err (
          validation_failed "DSL reference must resolve to a Pydantic model class."
            (at_reference reference))
      | some c ↦ ok c
    ]

  -- `_resolve_optional_model_class`
  unfoldable pub resolve_optional_model_class : Option String → Result (Option ModelClass)
  resolve_optional_model_class none = ok none
  resolve_optional_model_class (some reference) = resolve_model_class reference >>= λ c. ok (some c)

  -- `_resolve_optional_callable`
  unfoldable pub resolve_optional_callable : Option String → Result (Option Connector)
  resolve_optional_callable none = ok none
  resolve_optional_callable (some reference) = do
    resolved ← resolve_reference reference
    elim (importer.as_callable resolved) [
      | none ↦
          err
            (validation_failed "DSL reference must resolve to a callable." (at_reference reference))
      | some f ↦ ok (some f)
    ]
