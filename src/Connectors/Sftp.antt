-- ===== src/Connectors/Sftp.antt =====
-- connectors/ftp.py: SFTP. paramiko is given by its calls, each a step on a state, which may raise.
pub mod Checking
use db_connections.Connectors.Ftp.Client.{suppress}
use db_connections.Connectors.Stripping.{is_space, strip}
use db_connections.Errors.{other_error}
use db_connections.Exec.{Exec, pure, ◌>>=◌, ◌>>◌}
use db_connections.Int.{ℤ}
use db_connections.Prelude.{
  Bool, List, Option, String, [], if◌then◌else◌, none, not, quote, some, truthy, ℕ, ◌∷◌,
}
use db_connections.Result.{Result, err, ok}

-- `SFTPProperties`
pub record SftpProperties : Type 0 where
  pub host : String
  pub port : ℤ
  pub username : String
  pub private_key_path : Option String
  pub initial_directory : Option String
  pub allow_agent : Bool

-- `SFTPSecrets`
pub record SftpSecrets : Type 0 where
  pub password : Option String
  pub private_key_passphrase : Option String
  pub private_key_string : Option String

-- `validate_private_key_path`, over what the file system says of a path
unfoldable pub validate_private_key_path :
    (String → Bool) → (String → Bool) → Option String → Result (Option String)
validate_private_key_path path_exists is_file none = ok none
validate_private_key_path path_exists is_file (some value) =
    let normalized = strip is_space value in
    if not (truthy normalized)
    then ok none
    else if not (path_exists normalized)
    then err (other_error "ValueError" (quote "Private key file not found: " normalized ""))
    else if not (is_file normalized)
    then err (other_error "ValueError" (quote "Private key path is not a file: " normalized ""))
    else ok (some normalized)

-- keys are opaque handles
abbrev pub Key : Type 0
Key = ℕ

-- one of `PRIVATE_KEY_CLASSES`: reading a key from a text or a file, with a passphrase
pub record KeyClass : Type 0 where
  pub from_private_key : String → Option String → Result Key
  pub from_private_key_file : String → Option String → Result Key

-- the first class that reads the key: `try: return ... except Exception: continue`
unfoldable pub first_key : (KeyClass → Result Key) → List KeyClass → Option Key
first_key read [] = none
first_key read (c ∷ classes) = elim (read c) [ ok key ↦ some key | err e ↦ first_key read classes ]

-- one of the two loops of `_load_private_key`, if its source is given
abbrev key_from : (KeyClass → String → Result Key) → List KeyClass → Option String → Option Key
key_from read classes none = none
key_from read classes (some source) =
    if truthy source then first_key (λ c. read c source) classes else none

-- `a` if it is there, otherwise `b`
abbrev or_key : Option Key → Option Key → Option Key
or_key none b = b
or_key (some key) b = some key

-- `_load_private_key`, where paramiko is installed
unfoldable pub load_private_key : List KeyClass → SftpProperties → SftpSecrets → Option Key
load_private_key classes p secrets =
    or_key
      (key_from (λ c source. c.from_private_key source secrets.private_key_passphrase) classes
        secrets.private_key_string)
      (key_from (λ c source. c.from_private_key_file source secrets.private_key_passphrase) classes
        p.private_key_path)

-- the arguments of `connect`; `look_for_keys` is True and `timeout` 30
pub record ConnectArguments : Type 0 where
  pub hostname : String
  pub port : ℤ
  pub username : String
  pub allow_agent : Bool
  pub pkey : Option Key
  pub password : Option String

-- `connect_kwargs`: an empty password is left out. `_load_private_key` does not raise, so neither
-- does this.
unfoldable pub connect_arguments : List KeyClass → SftpProperties → SftpSecrets → ConnectArguments
connect_arguments classes p secrets = record {
  hostname = p.host;
  port = p.port;
  username = p.username;
  allow_agent = p.allow_agent;
  pkey = load_private_key classes p secrets;
  password = elim secrets.password [ none ↦ none | some s ↦ if truthy s then some s else none ];
}

pub record SftpLibrary (S : Type 0) : Type 0 where
  pub key_classes : List KeyClass
  pub is_reachable : String → ℤ → S → Bool
  pub connect : ConnectArguments → Exec S (Unit {0})
  pub open_sftp : Exec S (Unit {0})
  pub chdir : String → Exec S (Unit {0})
  pub getcwd : Exec S String
  pub close_sftp : Exec S (Unit {0})
  pub close_ssh : Exec S (Unit {0})

module _ {S : Type 0} (lib : SftpLibrary S) where
  -- `with contextlib.suppress(Exception): sftp_client.chdir(...)`
  unfoldable pub enter_initial : Option String → Exec S (Unit {0})
  enter_initial none = pure tt
  enter_initial (some directory) =
      if truthy directory then suppress (lib.chdir directory) else pure tt

  -- `_create_client`
  unfoldable pub create_sftp_client : SftpProperties → SftpSecrets → Exec S (Unit {0})
  create_sftp_client p secrets = do
    lib.connect (connect_arguments lib.key_classes p secrets)
    lib.open_sftp
    enter_initial p.initial_directory

  -- `_close_client`: the second call is made only if the first does not raise
  unfoldable pub close_sftp_client : Exec S (Unit {0})
  close_sftp_client = suppress (lib.close_sftp >>= λ u. lib.close_ssh)
