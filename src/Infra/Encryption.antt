-- ===== src/Infra/Encryption.antt =====
-- runtime/encryption.py: how secrets are turned into a column's text and back. The JSON codec and
-- the Fernet cipher are libraries, given by their functions.
use db_connections.Errors.{secret_decryption_failed}
use db_connections.Prelude.{Option, String, [], false, if◌then◌else◌, none, refl, some, ◌==◌, ◌≡◌}
use db_connections.Result.{Result, err, ok, ◌>>=◌}
use db_connections.Value.{Value, dict, end}

pub record Json : Type 0 where
  pub dumps : Value → String
  pub loads : String → Result Value

-- `decrypt` returns `none` where the library raises `InvalidToken`
pub record Fernet : Type 0 where
  pub encrypt : String → String
  pub decrypt : String → Option String

pub record EncryptionProvider : Type 0 where
  pub encrypt : Value → Result String
  pub decrypt : Option String → Result Value

-- `if payload is None or payload == "": return {}`
unfoldable pub no_op_decrypt : Json → Option String → Result Value
no_op_decrypt json none = ok (dict end)
no_op_decrypt json (some payload) = if payload == "" then ok (dict end) else json.loads payload

abbrev pub no_op_provider : Json → EncryptionProvider
no_op_provider json = record {
  encrypt = λ payload. ok (json.dumps payload);
  decrypt = no_op_decrypt json;
}

loads_decrypted : Json → Option String → Result Value
loads_decrypted json none =
    err (secret_decryption_failed "Could not decrypt connection secrets." [])
loads_decrypted json (some raw) = json.loads raw

unfoldable pub fernet_decrypt : Json → Fernet → Option String → Result Value
unfolding loads_decrypted
fernet_decrypt json fernet none = ok (dict end)
fernet_decrypt json fernet (some payload) =
    if payload == "" then ok (dict end) else loads_decrypted json (fernet.decrypt payload)

abbrev pub fernet_provider : Json → Fernet → EncryptionProvider
fernet_provider json fernet = record {
  encrypt = λ payload. ok (fernet.encrypt (json.dumps payload));
  decrypt = fernet_decrypt json fernet;
}

-- What the code relies on of the two libraries for a payload: its dump is read back, the token of
-- the dump is decrypted to the dump, and neither is the empty text.
pub record IsLossless (json : Json) (fernet : Fernet) (payload : Value) : Type 0 where
  pub loads-dumps : json.loads (json.dumps payload) ≡ ok payload
  pub dumps_nonempty : (json.dumps payload == "") ≡ false
  pub decrypt-encrypt :
      fernet.decrypt (fernet.encrypt (json.dumps payload)) ≡ some (json.dumps payload)
  pub encrypt_nonempty : (fernet.encrypt (json.dumps payload) == "") ≡ false

-- a provider reads back the payload that it wrote
abbrev pub ReadsBack : EncryptionProvider → Value → Type 0
ReadsBack p payload = (p.encrypt payload >>= λ c. p.decrypt (some c)) ≡ ok payload

-- Both providers decrypt a payload that they encrypted, if the codec and the cipher do not lose it;
-- with both a missing or empty column reads as no secrets, and a token that the key does not fit
-- raises `SecretDecryptionError` with Fernet.
pub providers-ReadsBack :
    (json : Json) (fernet : Fernet) (payload : Value) (token : String)
    → IsLossless json fernet payload
    → (token == "") ≡ false
    → fernet.decrypt token ≡ none
    → ReadsBack (no_op_provider json) payload
      × ReadsBack (fernet_provider json fernet) payload
      × (no_op_decrypt json none ≡ ok (dict end))
      × (no_op_decrypt json (some "") ≡ ok (dict end))
      × (fernet_decrypt json fernet none ≡ ok (dict end))
      × (fernet_decrypt json fernet (some "") ≡ ok (dict end))
      × (fernet_decrypt json fernet (some token)
          ≡ err (secret_decryption_failed "Could not decrypt connection secrets." []))
unfolding no_op_decrypt fernet_decrypt
providers-ReadsBack json fernet payload token l filled bad = (
  rw l.dumps_nonempty l.loads-dumps,
  rw (l.encrypt_nonempty, l.decrypt-encrypt) l.loads-dumps,
  refl,
  refl,
  refl,
  refl,
  rw (filled, bad),
)
