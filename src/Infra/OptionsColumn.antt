-- ===== src/Infra/OptionsColumn.antt =====
-- infra/sa_types.py: the column type that stores driver options with the name of their class.
use Prim.Native.Nat.{compare, Ordering}
use Prim.Native.Char.{code as char_code}
use Prim.Native.String.{◌∷◌ as char_cons}
use db_connections.Dict.{Dict, get}
use db_connections.Domain.{
  Checked, Model, ModelClass, Payload, absent, instance_of, invalid, mapping, plain, valid,
}
use db_connections.Errors.{Error, other_error}
use db_connections.Prelude.{
  Option, String, [], if◌then◌else◌, none, not, quote, refl, some, true, truthy, ◌||◌, ◌∷◌, ◌≡◌,
}
use db_connections.Result.{Result, err, ok, ◌>>=◌}
use db_connections.Value.{Value, dict, items, items-fields_of, null, of_dict, str, type_name}

-- `s.partition(":")`: what stands before and after the first colon
unfoldable pub partition_colon : String → String × String
partition_colon String.[] = ("", "")
partition_colon (String.◌∷◌ c s) =
    let rest = partition_colon s in
    elim (compare (char_code c) b':') [ Ordering.eq ↦ ("", s) | _ ↦ (char_cons c rest.0, rest.1) ]

-- what importing a module and following an attribute path finds
pub data Attribute : Type 0 where
  model_class : ModelClass → Attribute
  other_object : Attribute

-- `import_module` and then `getattr` along the path; what they raise is an error
abbrev pub Imports : Type 0
Imports = String → String → Result Attribute

type_error : String → Error
type_error text = other_error "TypeError" text

-- `_resolve_model_ref`
unfoldable pub resolve_model_ref : Imports → String → Result ModelClass
unfolding type_error
resolve_model_ref imports model_ref =
    let (module_name, attribute_path) = partition_colon model_ref in
    if not (truthy module_name) || not (truthy attribute_path)
    then err (type_error (quote "Invalid model_ref '" model_ref "'."))
    else imports module_name attribute_path >>= λ found. elim found [
      | model_class c ↦ ok c
      | other_object ↦
          err (type_error (quote "" model_ref " does not resolve to a Pydantic model."))
    ]

not_options : String → Error
not_options class_name =
    other_error "TypeError" (quote "Expected DriverOptionsBase, got <class '" class_name "'>")

-- `process_bind_param`: the stored JSON of an instance
unfoldable pub process_bind_param : Payload → Result Value
unfolding not_options
process_bind_param absent = ok null
process_bind_param (instance_of m) =
    if m.is_driver_options
    then ok (of_dict (("model_ref", str m.ref) ∷ ("data", of_dict m.dump_json) ∷ []))
    else err (not_options m.ref)
process_bind_param (mapping d) = err (not_options "dict")
process_bind_param (plain v) = err (not_options (type_name v))

-- a stored value as what `validate_python` takes
abbrev pub payload_of_value : Option Value → Payload
payload_of_value none = absent
payload_of_value (some null) = absent
payload_of_value (some (dict fs)) = mapping (items fs)
payload_of_value (some v) = plain v

checked_instance : Checked → Result Model
checked_instance (valid m) = ok m
checked_instance (invalid e) = err (other_error "ValidationError" "")

-- the class and data of a stored entry
read_entry : Imports → Dict Value → Result Model
unfolding type_error checked_instance
read_entry imports entry = elim (get "model_ref" entry) [
  | some (str model_ref) ↦ resolve_model_ref imports model_ref >>= λ c.
      if c.is_driver_options
      then checked_instance (c.model_validate (payload_of_value (get "data" entry)))
      else err (type_error (quote "" model_ref " is not a DriverOptionsBase subtype."))
  | _ ↦ err (type_error "Driver options payload is missing model_ref.")
]

-- `process_result_value`
unfoldable pub process_result_value : Imports → Value → Result (Option Model)
unfolding read_entry
process_result_value imports null = ok none
process_result_value imports (dict fs) = read_entry imports (items fs) >>= λ m. ok (some m)
process_result_value imports v =
    err (
      type_error (quote "Expected JSON object for driver options, got <class '" (type_name v) "'>"))

-- An instance that was bound is read back as itself, if its class is found under the reference
-- that was stored, derives from `DriverOptionsBase` and reads the JSON dump as that instance; and
-- no options are read back as none.
pub process_result-process_bind :
    (imports : Imports) (m : Model) (c : ModelClass)
    → m.is_driver_options ≡ true
    → resolve_model_ref imports m.ref ≡ ok c
    → c.is_driver_options ≡ true
    → c.model_validate (mapping m.dump_json) ≡ valid m
    → ((process_bind_param (instance_of m) >>= process_result_value imports) ≡ ok (some m))
      × ((process_bind_param absent >>= process_result_value imports) ≡ ok none)
unfolding process_bind_param process_result_value checked_instance
process_result-process_bind imports m c options found derived reads =
    (simp (options, found, derived, items-fields_of, reads), refl)
