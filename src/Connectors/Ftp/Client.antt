-- ===== src/Connectors/Ftp/Client.antt =====
-- connectors/ftp.py: how `FTPConnector` opens and closes a client of ftplib. The library is given
-- by its calls, each a step on a state that stands for the network, which may raise.
use db_connections.Connectors.Ftp.{FtpMode, FtpProperties, FtpSecrets, ftp}
use db_connections.Connectors.Texts.{occurs_in, split_slash}
use db_connections.Errors.{Error, message, other_error}
use db_connections.Exec.{Exec, lift, pure, ◌>>=◌, ◌>>◌}
use db_connections.Int.{ℤ}
use db_connections.Prelude.{
  Bool, List, Option, String, [], arith, elem, false, get_or, if◌then◌else◌, keep_if, none, not,
  quote, some, true, truthy, ◌==◌, ◌||◌, ◌∷◌, ◌≡◌,
}
use db_connections.Result.{Result, err, ok}

-- the context that `_build_ssl_context` makes
pub record SslContext : Type 0 where
  pub check_hostname : Bool
  pub verifies : Bool
  pub cert_chain : Option (String × Option String)

pub record FtpLibrary (S : Type 0) : Type 0 where
  pub is_reachable : String → ℤ → S → Bool
  pub new_ftp : String → Exec S (Unit {0})
  pub new_tls : String → SslContext → Exec S (Unit {0})
  pub connect : String → ℤ → Exec S (Unit {0})
  pub auth : Exec S (Unit {0})
  pub prot_p : Exec S (Unit {0})
  pub login : String → String → Exec S (Unit {0})
  pub set_pasv : Exec S (Unit {0})
  pub cwd : String → Exec S (Unit {0})
  pub mkd : String → Exec S (Unit {0})
  pub pwd : Exec S String
  pub quit : Exec S (Unit {0})
  pub close : Exec S (Unit {0})

-- `_build_ssl_context`
unfoldable pub build_ssl_context : FtpProperties → SslContext
build_ssl_context p = record {
  check_hostname = p.verify_ssl;
  verifies = p.verify_ssl;
  cert_chain = elim p.certfile [
    | none ↦ none
    | some c ↦ if truthy c then some (c, p.keyfile) else none
  ];
}

-- `isinstance(exc, error_perm)`
abbrev pub is_error_perm : Error → Bool
is_error_perm (other_error class_name text) = class_name == "error_perm"
is_error_perm _ = false

-- the exceptions of ftplib, `FTP_ERRORS`
abbrev pub is_ftp_error : Error → Bool
is_ftp_error (other_error class_name text) =
    elem class_name ("error_perm" ∷ "error_temp" ∷ "error_reply" ∷ "error_proto" ∷ [])
is_ftp_error _ = false

module _ {S A : Type 0} where
  -- `try: m` with a handler for every exception
  abbrev pub handle : Result A × S → (Error → Exec S A) → Result A × S
  handle (ok a, s) h = (ok a, s)
  handle (err e, s) h = h e s

-- `with contextlib.suppress(Exception)`
abbrev pub suppress : {S : Type 0} → Exec S (Unit {0}) → Exec S (Unit {0})
suppress m s = (ok tt, (m s).1)

-- `f"{current_path}/{part}" if current_path else part`
abbrev next_path : String → String → String
next_path current part = if truthy current then quote current "/" part else part

-- `props.x or ""`
abbrev or_empty : Option String → String
or_empty x = get_or x ""

module _ {S : Type 0} (lib : FtpLibrary S) where
  -- changing to a directory, or making it and then changing to it
  unfoldable pub enter_or_make : String → Exec S (Unit {0})
  enter_or_make path s =
      handle (lib.cwd path s)
        (λ e. if is_error_perm e then (lib.mkd path >>= λ _. lib.cwd path) else lift (err e))

  -- the loop of `_create_ftp_directory`, over the parts that are not empty
  unfoldable pub enter_parts : String → List String → Exec S (Unit {0})
  enter_parts current [] = pure tt
  enter_parts current (part ∷ parts) =
      enter_or_make (next_path current part) >>= λ _. enter_parts (next_path current part) parts

  -- `_create_ftp_directory`: leading and trailing slashes only make empty parts
  unfoldable pub create_ftp_directory : String → Exec S (Unit {0})
  create_ftp_directory directory =
      if not (truthy directory) || directory == "/"
      then pure tt
      else enter_parts "" (keep_if truthy (split_slash directory))

  -- a directory that the server does not know is made; other refusals are ignored
  unfoldable pub enter_directory : Option String → Exec S (Unit {0})
  enter_directory none = pure tt
  enter_directory (some directory) =
      if truthy directory
      then (λ s. handle (lib.cwd directory s) (λ e.
          if is_error_perm e
          then (if occurs_in "550" (message e)
              then suppress (create_ftp_directory directory)
              else pure tt)
          else lift (err e)))
      else pure tt

  abbrev is_tls : FtpMode → Bool
  is_tls ftp = false
  is_tls _ = true

  -- `_create_client`
  unfoldable pub create_client : FtpProperties → FtpSecrets → Exec S (Unit {0})
  create_client p secrets = do
    if is_tls p.mode then lib.new_tls p.encoding (build_ssl_context p) else lib.new_ftp p.encoding
    lib.connect p.host p.port
    if is_tls p.mode then (lib.auth >>= λ _. lib.prot_p) else pure tt
    lib.login (if p.anonymous then "anonymous" else or_empty p.username)
        (if p.anonymous then "" else or_empty secrets.password)
    lib.set_pasv
    enter_directory p.initial_directory

  -- `_close_client`
  unfoldable pub close_client : Exec S (Unit {0})
  close_client s = handle (lib.quit s) (λ e. suppress lib.close)

  -- closing a client never raises
  pub close_client_total : (s : S) → (close_client s).0 ≡ ok tt
  unfolding close_client
  close_client_total s = ground arith
