-- ===== src/Connectors/Sftp/Checking.antt =====
-- connectors/ftp.py: `SFTPConnector._check_blocking`.
use db_connections.Connectors.Sftp.{
  SftpLibrary, SftpProperties, SftpSecrets, close_sftp_client, create_sftp_client,
}
use db_connections.Domain.{ConnectionCheckResult}
use db_connections.Errors.{Error, message, other_error}
use db_connections.Int.{int_text}
use db_connections.Prelude.{
  Bool, List, Option, String, [], elem, false, if◌then◌else◌, none, quote, some, true, ◌∷◌,
}
use db_connections.Result.{Result, err, ok}

abbrev pub sftp_result : Option String → Bool → String → Option String → ConnectionCheckResult
sftp_result name connected message_ exception = record {
  name = name;
  connected = connected;
  message = some message_;
  exception = exception;
}

-- whether an exception is of one of the named classes
abbrev is_one_of : List String → Error → Bool
is_one_of names (other_error c m) = elem c names
is_one_of names e = false

-- the handlers of `_check_blocking`
unfoldable pub sftp_failure : Option String → Error → ConnectionCheckResult
sftp_failure name e =
    if is_one_of ("TimeoutError" ∷ []) e
    then sftp_result name false "Connection timed out" none
    else if is_one_of ("AuthenticationException" ∷ []) e
    then sftp_result name false "Authentication failed. Check credentials or keys." none
    else if is_one_of ("SSHException" ∷ "NoValidConnectionsError" ∷ []) e
    then sftp_result name false (quote "SSH error: " (message e) "") (some (message e))
    else sftp_result name false (quote "Error: " (message e) "") (some (message e))

-- what `getcwd` gave
abbrev pub sftp_reported : Option String → Result String → ConnectionCheckResult
sftp_reported name (ok directory) =
    sftp_result name true (quote "SFTP connected. Current directory: " directory "") none
sftp_reported name (err e) = sftp_failure name e

module _ {S : Type 0} (lib : SftpLibrary S) where
  -- with a client: `getcwd`, and then the client is closed
  abbrev pub sftp_report : Option String → Result (Unit {0}) × S → ConnectionCheckResult × S
  sftp_report name (ok u, s) =
      let (r, s') = lib.getcwd s in (sftp_reported name r, (close_sftp_client lib s').1)
  sftp_report name (err e, s) = (sftp_failure name e, s)

  -- `_check_blocking`, once the properties are known to be SFTP's
  unfoldable pub check_sftp :
      Option String → SftpProperties → SftpSecrets → S → ConnectionCheckResult × S
  check_sftp name p secrets s =
      if lib.is_reachable p.host p.port s
      then sftp_report name (create_sftp_client lib p secrets s)
      else (
        sftp_result name false
            (quote (quote "Host " p.host ":") (int_text p.port) " is unreachable") none,
        s,
      )
