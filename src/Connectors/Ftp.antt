-- ===== src/Connectors/Ftp.antt =====
-- connectors/ftp.py: the properties of FTP connections, once pydantic has read their types.
pub mod Client
pub mod Checking
use db_connections.Errors.{other_error}
use db_connections.Int.{between, negsuc, pos, ℤ, ◌==ℤ◌}
use db_connections.Prelude.{
  Bool, Option, String, arith, false, if◌then◌else◌, none, not, refl, some, true, truthy, ℕ, ◌&&◌,
  ◌||◌, ◌≡◌, ◌≤◌, ◌⊎◌,
}
use db_connections.Result.{Result, err, ok}

pub data FtpMode : Type 0 where
  ftp : FtpMode
  ftps_implicit : FtpMode
  ftps_explicit : FtpMode

-- `FTPProperties`; `ssl_context` is never read
pub record FtpProperties : Type 0 where
  pub host : String
  pub port : ℤ
  pub mode : FtpMode
  pub username : Option String
  pub anonymous : Bool
  pub encoding : String
  pub initial_directory : Option String
  pub verify_ssl : Bool
  pub certfile : Option String
  pub keyfile : Option String

pub record FtpSecrets : Type 0 where
  pub password : Option String

-- `bool(x)` of an optional text
abbrev pub is_given : Option String → Bool
is_given none = false
is_given (some s) = truthy s

-- `validate_port`
unfoldable pub is_port : ℤ → Bool
is_port value = between 1 value 65535

-- `validate_anonymous`
unfoldable pub is_ambiguous : FtpProperties → Bool
is_ambiguous p = p.anonymous && is_given p.username

-- `normalize_port_for_mode`
unfoldable pub normalize_port_for_mode : FtpProperties → FtpProperties
normalize_port_for_mode p = elim p.mode [
  | ftps_implicit ↦ if p.port ==ℤ pos 21 then record p { port = pos 990 } else p
  | ftp ↦ if p.port ==ℤ pos 990 then record p { port = pos 21 } else p
  | ftps_explicit ↦ p
]

-- the validators of the model: those of the fields, and then the one of the model
unfoldable pub validate_ftp : FtpProperties → Result FtpProperties
validate_ftp p =
    if not (is_port p.port) || is_ambiguous p
    then err (other_error "ValidationError" "")
    else ok (normalize_port_for_mode p)

-- the usual port of the other mode
abbrev pub is_foreign : FtpMode → ℤ → Bool
is_foreign ftp port = port ==ℤ pos 990
is_foreign ftps_implicit port = port ==ℤ pos 21
is_foreign ftps_explicit port = false

port_bounds : (z : ℤ) → is_port z ≡ true → (n : ℕ) × (z ≡ pos n) × (1 ≤ n) × (n ≤ 65535)
unfolding is_port
port_bounds (pos n) h = (n, refl, ground arith, ground arith)
port_bounds (negsuc n) h = ground arith

-- what passes, by its parts
passed_parts :
    (p q : FtpProperties)
    → validate_ftp p ≡ ok q
    → (is_port q.port ≡ true)
      × (is_foreign q.mode q.port ≡ false)
      × ((q.port ≡ p.port) ⊎ (is_foreign p.mode p.port ≡ true))
unfolding validate_ftp normalize_port_for_mode is_port is_ambiguous
passed_parts p q h = (ground arith, ground arith, ground arith)

-- Properties that pass have a port from 1 to 65535 that is not the usual port of the other mode (990
-- for FTP, 21 for implicit FTPS), do not ask for an anonymous login under a user's name, and differ
-- from what was given in the port only, and there only if the given port was the other mode's. They
-- pass again unchanged: what is stored of a connection validates to itself.
pub validate_ftp_lem :
    (p q : FtpProperties)
    → validate_ftp p ≡ ok q
    → ((n : ℕ) × (q.port ≡ pos n) × (1 ≤ n) × (n ≤ 65535))
      × (is_foreign q.mode q.port ≡ false)
      × ((q.anonymous && is_given q.username) ≡ false)
      × (q ≡ record p { port = q.port })
      × ((q.port ≡ p.port) ⊎ (is_foreign p.mode p.port ≡ true))
      × (validate_ftp q ≡ ok q)
unfolding validate_ftp normalize_port_for_mode is_port is_ambiguous
validate_ftp_lem p q h =
    let (port, native_port, moved) = passed_parts p q h in
    (port_bounds q.port port, native_port, ground arith, ground arith, moved, ground arith)
