-- ===== src/Compat/Columns.antt =====
-- compat/sa_types.py: the column type in which the first version stores connection properties.
-- what is bound to a column: nothing, an object of the column's class by its dump, a dictionary, or
-- another object by the name of its type
use db_connections.Compat.Encryption.{decrypt_sensitive_fields, encrypt_sensitive_fields}
use db_connections.Dict.{Dict}
use db_connections.Errors.{other_error}
use db_connections.Infra.Encryption.{Fernet}
use db_connections.Prelude.{Option, String, none, quote, some}
use db_connections.Result.{Result, err, ok}
use db_connections.Value.{Value}

pub data Bound : Type 0 where
  unbound : Bound
  instance_dump : Dict Value → Bound
  mapping_of : Dict Value → Bound
  other_type : String → Bound

module _ (fernet : Option Fernet) (pydantic_type : String) where
  -- `process_bind_param`
  unfoldable pub bind_properties : Bound → Result (Option (Dict Value))
  bind_properties unbound = ok none
  bind_properties (instance_dump d) = ok (some (encrypt_sensitive_fields fernet d))
  bind_properties (mapping_of d) = ok (some (encrypt_sensitive_fields fernet d))
  bind_properties (other_type t) =
      err (other_error "TypeError" (quote (quote "Expected " pydantic_type " or dict, got ") t ""))

  -- `process_result_value`, with the adapter of the class; an object is seen by its dump
  unfoldable pub load_properties :
      (Dict Value → Result (Dict Value)) → Option (Dict Value) → Result (Option (Dict Value))
  load_properties validate_python none = ok none
  load_properties validate_python (some d) =
      elim (validate_python (decrypt_sensitive_fields fernet d)) [
        | ok m ↦ ok (some m)
        | err e ↦ err e
      ]
