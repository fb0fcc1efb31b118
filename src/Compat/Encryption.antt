-- ===== src/Compat/Encryption.antt =====
-- compat/encryption.py: the texts under the sensitive names of a payload are encrypted and decrypted
-- in place, each marked by a prefix.
pub mod Laws
use Prim.Native.String.{◌++◌ as text_append}
use db_connections.Connectors.Texts.{starts_with}
use db_connections.Dict.{Dict, get, insert}
use db_connections.Infra.Encryption.{Fernet}
use db_connections.Prelude.{
  List, Option, String, [], if◌then◌else◌, none, some, suc, zero, ℕ, ◌==◌, ◌∷◌,
}
use db_connections.Value.{Value, is_null, str}

-- `FERNET_PREFIX`
abbrev pub fernet_prefix : String
fernet_prefix = "fernet$"

-- `SENSITIVE_FIELDS`, a set: the order of a list is one that a loop over it may take
abbrev pub sensitive_fields : List String
sensitive_fields =
    "password" ∷ "sasl_plain_password" ∷ "access_token_id" ∷ "access_token_key" ∷ "session_token"
    ∷ []

-- `text[n:]`
unfoldable pub drop_text : ℕ → String → String
drop_text zero text = text
drop_text (suc n) String.[] = ""
drop_text (suc n) (String.◌∷◌ c text) = drop_text n text

-- `_encrypt_value`
unfoldable pub encrypt_value : Fernet → Value → Value
encrypt_value fernet (str s) =
    if s == ""
    then str s
    else if starts_with fernet_prefix s
    then str s
    else str (text_append fernet_prefix (fernet.encrypt s))
encrypt_value fernet v = v

-- `_decrypt_value`: a token that cannot be decrypted stays
unfoldable pub decrypt_value : Fernet → Value → Value
decrypt_value fernet (str s) =
    if starts_with fernet_prefix s
    then elim (fernet.decrypt (drop_text 7 s)) [ none ↦ str s | some t ↦ str t ]
    else str s
decrypt_value fernet v = v

-- the body of the loop: `if field in result and result[field] is not None`
unfoldable pub change_field : (Value → Value) → String → Dict Value → Dict Value
change_field f name d = elim (get name d) [
  | none ↦ d
  | some v ↦ if is_null v then d else insert name (f v) d
]

unfoldable pub change_fields : (Value → Value) → List String → Dict Value → Dict Value
change_fields f [] d = d
change_fields f (name ∷ names) d = change_fields f names (change_field f name d)

-- `encrypt_sensitive_fields`, without a fernet if none is configured
unfoldable pub encrypt_sensitive_fields : Option Fernet → Dict Value → Dict Value
encrypt_sensitive_fields none payload = payload
encrypt_sensitive_fields (some fernet) payload =
    change_fields (encrypt_value fernet) sensitive_fields payload

-- `decrypt_sensitive_fields`
unfoldable pub decrypt_sensitive_fields : Option Fernet → Dict Value → Dict Value
decrypt_sensitive_fields none payload = payload
decrypt_sensitive_fields (some fernet) payload =
    change_fields (decrypt_value fernet) sensitive_fields payload
