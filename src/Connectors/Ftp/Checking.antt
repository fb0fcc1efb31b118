-- ===== src/Connectors/Ftp/Checking.antt =====
-- connectors/ftp.py: `FTPConnector._check_blocking`.
use Prim.Native.String.{◌++◌ as text_append}
use db_connections.Connectors.Ftp.{FtpProperties, FtpSecrets}
use db_connections.Connectors.Ftp.Client.{FtpLibrary, close_client, create_client, is_ftp_error}
use db_connections.Connectors.Texts.{occurs_in, take_text}
use db_connections.Domain.{ConnectionCheckResult}
use db_connections.Errors.{Error, message, other_error}
use db_connections.Int.{int_text}
use db_connections.Prelude.{
  Bool, Option, String, arith, false, if◌then◌else◌, inl, inr, none, quote, some, true, ◌==◌, ◌↔◌,
  ◌≡◌, ◌≢◌,
}
use db_connections.Result.{Result, Result-cases, err, ok}

-- `_parse_ftp_error`
unfoldable pub parse_ftp_error : String → String
parse_ftp_error text =
    if occurs_in "530" text
    then "Authentication failed (incorrect username or password)"
    else if occurs_in "550" text
    then "Permission denied or directory not found"
    else text_append "FTP Error: " (take_text 100 text)

abbrev check_result : Option String → Bool → String → Option String → ConnectionCheckResult
check_result name connected message_ exception = record {
  name = name;
  connected = connected;
  message = some message_;
  exception = exception;
}

abbrev is_timeout : Error → Bool
is_timeout (other_error class_name text) = class_name == "TimeoutError"
is_timeout _ = false

-- the handlers of `_check_blocking`
unfoldable pub failure : Option String → Error → ConnectionCheckResult
failure name e =
    if is_timeout e
    then check_result name false "Connection timed out" none
    else if is_ftp_error e
    then check_result name false (parse_ftp_error (message e)) (some (message e))
    else check_result name false (text_append "Unexpected error: " (message e)) (some (message e))

-- what `pwd` gave
abbrev reported : Option String → Result String → ConnectionCheckResult
reported name (ok directory) =
    check_result name true (text_append "Connected successfully. Current directory: " directory)
      none
reported name (err e) = failure name e

module _ {S : Type 0} (lib : FtpLibrary S) where
  -- with a client: `pwd`, and then the client is closed
  unfoldable pub report_and_close : Option String → S → ConnectionCheckResult × S
  report_and_close name s = let (r, s') = lib.pwd s in (reported name r, (close_client lib s').1)

  -- the client, or why there is none
  unfoldable pub checked_client : Option String → Result (Unit {0}) × S → ConnectionCheckResult × S
  checked_client name (ok u, s) = report_and_close name s
  checked_client name (err e, s) = (failure name e, s)

  -- `_check_blocking`, once the properties are known to be FTP's. Every mode is supported.
  unfoldable pub check_blocking :
      Option String → FtpProperties → FtpSecrets → S → ConnectionCheckResult × S
  check_blocking name p secrets s =
      if lib.is_reachable p.host p.port s
      then checked_client name (create_client lib p secrets s)
      else (
        check_result name false
            (quote (quote "Host " p.host ":") (int_text p.port) " is unreachable") none,
        s,
      )

  failure-connected : (name : Option String) (e : Error) → (failure name e).connected ≡ false
  unfolding failure
  failure-connected name e = ground arith

  not_connected :
      (name : Option String) (p : FtpProperties) (secrets : FtpSecrets) (s : S) (x : Error)
      → (lib.pwd (create_client lib p secrets s).1).0 ≡ err x
      → (check_blocking name p secrets s).0.connected ≢ true
  unfolding check_blocking checked_client report_and_close
  not_connected name p secrets s x e h =
      let f = failure-connected name x in
      elim (Result-cases (create_client lib p secrets s).0) [
        | inl (u, made) ↦ ground arith
        | inr (y, failed) ↦ let g = failure-connected name y in ground arith
      ]

  -- A check reports a connection exactly when the host answers, a client can be made and logged in,
  -- and its directory be read; else the report says that it is not connected. A client that was
  -- made is closed before the check returns, whatever `pwd` does. If making it raises, nothing is
  -- closed: the network is left as the failed attempt left it. A host that does not answer leaves
  -- it as it was.
  pub check_blocking_lem :
      (name : Option String) (p : FtpProperties) (secrets : FtpSecrets) (s : S)
      → let made = create_client lib p secrets s in
        let found = lib.pwd made.1 in
        let checked = check_blocking name p secrets s in
        ((checked.0.connected ≡ true) ↔ (
          (lib.is_reachable p.host p.port s ≡ true)
          × (made.0 ≡ ok tt)
          × ((directory : String) × (found.0 ≡ ok directory))))
        × (checked.1 ≡ (
            if lib.is_reachable p.host p.port s
            then elim made.0 [ ok u ↦ (close_client lib found.1).1 | err e ↦ made.1 ]
            else s))
  unfolding check_blocking checked_client report_and_close failure
  check_blocking_lem name p secrets s =
      let made = create_client lib p secrets s in
      (
        (
          λ h. elim (Result-cases (lib.pwd made.1).0) [
            | inl (directory, e) ↦ (ground arith, ground arith, (directory, e))
            | inr (x, e) ↦ absurd (not_connected name p secrets s x e h)
          ],
          λ (up, done, (directory, e)). ground arith,
        ),
        ground arith,
      )
