-- ===== src/Errors.antt =====
-- errors.py: the exceptions that the library raises, and `ErrorMapper`.
use db_connections.Dict.{Dict}
use db_connections.Int.{ℤ}
use db_connections.Prelude.{Bool, String, [], false, if◌then◌else◌, true, ℕ, ◌∷◌}
use db_connections.Value.{Value, int, str}

pub data Error : Type 0 where
  -- `DBConnectionError` itself and its subclasses, with what their constructors take
  db_connection_error : String → Dict Value → Error
  connection_not_found : String → Error
  connection_type_not_supported : String → Error
  validation_failed : String → Dict Value → Error
  access_denied : String → Dict Value → Error
  connection_limit_exceeded : ℤ → Error
  secret_decryption_failed : String → Dict Value → Error
  infrastructure_error : String → Dict Value → Error
  -- any other exception: its class and its text
  other_error : String → String → Error

-- `isinstance(exc, DBConnectionError)`
abbrev pub is_db_connection_error : Error → Bool
is_db_connection_error (other_error c m) = false
is_db_connection_error _ = true

-- the class attribute `code`
unfoldable pub code : Error → String
code (db_connection_error m d) = "db_connection_error"
code (connection_not_found i) = "connection_not_found"
code (connection_type_not_supported t) = "connection_type_not_supported"
code (validation_failed m d) = "validation_failed"
code (access_denied m d) = "access_denied"
code (connection_limit_exceeded n) = "connection_limit_exceeded"
code (secret_decryption_failed m d) = "secret_decryption_failed"
code (infrastructure_error m d) = "infrastructure_error"
code (other_error c m) = ""

-- what the constructors store as `message`
unfoldable pub message : Error → String
message (db_connection_error m d) = m
message (connection_not_found i) = "Connection not found."
message (connection_type_not_supported t) = "Connection type is not supported."
message (validation_failed m d) = m
message (access_denied m d) = m
message (connection_limit_exceeded n) = "Connection limit exceeded."
message (secret_decryption_failed m d) = m
message (infrastructure_error m d) = m
message (other_error c m) = m

-- what the constructors store as `details`
unfoldable pub details : Error → Dict Value
details (db_connection_error m d) = d
details (connection_not_found i) = ("connection_id", str i) ∷ []
details (connection_type_not_supported t) = ("type", str t) ∷ []
details (validation_failed m d) = d
details (access_denied m d) = d
details (connection_limit_exceeded n) = ("limit", int n) ∷ []
details (secret_decryption_failed m d) = d
details (infrastructure_error m d) = d
details (other_error c m) = []

pub record ErrorResponseSpec : Type 0 where
  pub status_code : ℕ
  pub code : String
  pub message : String
  pub details : Dict Value
  pub headers : Dict String

-- the ladder of `isinstance` tests, in its order
unfoldable pub status_code_of : Error → ℕ
status_code_of (access_denied m d) = 403
status_code_of (connection_not_found i) = 404
status_code_of (connection_type_not_supported t) = 400
status_code_of (validation_failed m d) = 422
status_code_of (connection_limit_exceeded n) = 409
status_code_of _ = 400

-- `ErrorMapper.map_exception`
unfoldable pub map_exception : Error → ErrorResponseSpec
unfolding status_code_of code message details
map_exception e =
    if is_db_connection_error e
    then record {
      status_code = status_code_of e;
      code = code e;
      message = message e;
      details = details e;
      headers = [];
    }
    else record {
      status_code = 500;
      code = "internal_error";
      message = "Internal server error.";
      details = [];
      headers = [];
    }
