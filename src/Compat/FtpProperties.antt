-- ===== src/Compat/FtpProperties.antt =====
-- compat/connection_properties.py: the validators of FTP and SFTP properties, which pydantic runs in
-- the order of the fields and only on the fields that are given.
-- `FTPMode`
use db_connections.Connectors.Ftp.{
  FtpMode, FtpProperties, ftp, ftps_explicit, ftps_implicit, is_ambiguous, is_given, is_port,
  normalize_port_for_mode, validate_ftp,
}
use db_connections.Dict.{Dict, get}
use db_connections.Errors.{other_error}
use db_connections.Int.{between, pos, ℤ, ◌==ℤ◌}
use db_connections.Prelude.{
  Bool, Option, String, ap, arith, false, get_or, if◌then◌else◌, inl, inr, is_none, none, not, refl,
  some, true, ◌&&◌, ◌||◌, ◌∙◌, ◌≡◌, ◌⊎◌,
}
use db_connections.Result.{Result, err, ok, passed, ◌>>=◌}
use db_connections.Value.{Value, bool, null, truthy_value}

pub data LegacyFtpMode : Type 0 where
  legacy_sftp : LegacyFtpMode
  legacy_ftp : LegacyFtpMode
  legacy_ftps_implicit : LegacyFtpMode
  legacy_ftps_explicit : LegacyFtpMode

-- the fields of `FTPConnectionProperties` that validators read, where they are given
pub record GivenFtp : Type 0 where
  pub port : Option ℤ
  pub mode : Option LegacyFtpMode
  pub username : Option String
  pub anonymous : Option Bool

-- the same fields once validated
pub record LegacyFtp : Type 0 where
  pub port : ℤ
  pub mode : LegacyFtpMode
  pub username : Option String
  pub anonymous : Bool

-- `validate_port`
unfoldable pub validate_port : ℤ → Result ℤ
validate_port v =
    if between 1 v 65535
    then ok v
    else err (other_error "ValueError" "Port must be between 1 and 65535")

-- `validate_mode_port`: the port that it leaves among the validated fields
unfoldable pub validate_mode_port : LegacyFtpMode → ℤ → ℤ
validate_mode_port legacy_ftps_implicit port = if port ==ℤ pos 21 then pos 990 else port
validate_mode_port legacy_ftp port = if port ==ℤ pos 990 then pos 21 else port
validate_mode_port _ port = port

-- `validate_anonymous`
unfoldable pub validate_anonymous : Bool → Option String → Result Bool
validate_anonymous v username =
    if v && is_given username
    then err (other_error "ValueError" "Cannot specify both anonymous=True and username")
    else ok v

-- a validator of a field that may be left out
abbrev pub if_given : {A : Type 0} → (A → Result A) → Option A → A → Result A
if_given f none default_value = ok default_value
if_given f (some a) default_value = f a

-- the port after the validator of the mode, if a mode is given
abbrev pub moved : Option LegacyFtpMode → ℤ → ℤ
moved none port = port
moved (some m) port = validate_mode_port m port

-- `FTPConnectionProperties(...)`, as far as its validators go
unfoldable pub validate_legacy_ftp : GivenFtp → Result LegacyFtp
validate_legacy_ftp g = do
  port ← if_given validate_port g.port (pos 21)
  anonymous ← if_given (λ v. validate_anonymous v g.username) g.anonymous false
  ok (record {
    port = moved g.mode port;
    mode = get_or g.mode legacy_ftp;
    username = g.username;
    anonymous = anonymous;
  })

-- the mode as the runtime names it, which has no `sftp` among FTP's
abbrev pub runtime_mode : LegacyFtpMode → Option FtpMode
runtime_mode legacy_sftp = none
runtime_mode legacy_ftp = some ftp
runtime_mode legacy_ftps_implicit = some ftps_implicit
runtime_mode legacy_ftps_explicit = some ftps_explicit

port_lem :
    (o : Option ℤ) (port : ℤ)
    → if_given validate_port o (pos 21) ≡ ok port
    → between 1 port 65535 ≡ true
unfolding validate_port
port_lem none port h = ground arith
port_lem (some v) port h = ground arith

anonymous_lem :
    (o : Option Bool) (username : Option String) (anonymous : Bool)
    → if_given (λ v. validate_anonymous v username) o false ≡ ok anonymous
    → (anonymous && is_given username) ≡ false
unfolding validate_anonymous
anonymous_lem none username anonymous h = ground arith
anonymous_lem (some v) username anonymous h = ground arith

moved_lem :
    (o : Option LegacyFtpMode) (port : ℤ)
    → between 1 port 65535 ≡ true
    → between 1 (moved o port) 65535 ≡ true
unfolding validate_mode_port
moved_lem none port h = h
moved_lem (some m) port h = ground arith

-- the runtime has nothing to change where a mode was given
unmoved :
    (o : Option LegacyFtpMode) (port : ℤ) (m : FtpMode) (p : FtpProperties)
    → runtime_mode (get_or o legacy_ftp) ≡ some m
    → let q = record p { port = moved o port; mode = m } in
      (is_none o ≡ true) ⊎ (normalize_port_for_mode q ≡ q)
unfolding validate_mode_port normalize_port_for_mode
unmoved none port m p h = inl refl
unmoved (some m') port m p h = inr (ground arith)

-- FTP properties that the first version accepts have a port between 1 and 65535 and ask for no
-- anonymous login under a user's name. The runtime accepts them too in a mode that it knows, with
-- the port that it makes of theirs; that is theirs, unless no mode was given.
pub validate_legacy_ftp_lem :
    (g : GivenFtp) (l : LegacyFtp) (m : FtpMode) (p : FtpProperties)
    → validate_legacy_ftp g ≡ ok l
    → runtime_mode l.mode ≡ some m
    → let q = record p {
      port = l.port;
      mode = m;
      username = l.username;
      anonymous = l.anonymous;
    } in
      (validate_port l.port ≡ ok l.port)
      × (validate_ftp q ≡ ok (normalize_port_for_mode q))
      × ((is_none g.mode ≡ true) ⊎ (normalize_port_for_mode q ≡ q))
unfolding validate_legacy_ftp validate_port validate_ftp is_port is_ambiguous
validate_legacy_ftp_lem g l m p h k =
    let (port, e1, h1) = passed (if_given validate_port g.port (pos 21)) _ l h in
    let (anonymous, e2, h2) =
      passed (if_given (λ v. validate_anonymous v g.username) g.anonymous false) _ l h1 in
    let inside = moved_lem g.mode port (port_lem g.port port e1) in
    let named = anonymous_lem g.anonymous g.username anonymous e2 in
    let same : record {
      port = moved g.mode port;
      mode = get_or g.mode legacy_ftp;
      username = g.username;
      anonymous = anonymous;
    }
        ≡ l =
      cc in
    let known : runtime_mode (get_or g.mode legacy_ftp) ≡ some m =
      ap (λ (x : LegacyFtp). runtime_mode x.mode) same ∙ k in
    let p' = record p { username = g.username; anonymous = anonymous } in
    rw (← same) (rw inside refl, rw (inside, named) refl, unmoved g.mode port m p' known)

-- `SFTPConnectionProperties.validate_auth_method`: `data_` holds the fields that were validated
-- before the password
unfoldable pub validate_auth_method : Dict Value → Option String → Result (Option String)
validate_auth_method data_ v =
    let has_private_key =
      truthy_value (get_or (get "private_key_path" data_) null)
      || truthy_value (get_or (get "private_key_string" data_) null) in
    let allow_agent = get_or (get "allow_agent" data_) (bool false) in
    let look_for_keys = get_or (get "look_for_keys" data_) (bool true) in
    if not (is_given v)
      && (not has_private_key
          && (not (truthy_value allow_agent) && not (truthy_value look_for_keys)))
    then err (
        other_error "ValueError"
          "At least one authentication method must be specified: password, private_key_path, private_key_string, allow_agent=True, or look_for_keys=True")
    else ok v

-- Without a field `look_for_keys`, which SFTP properties do not have, the validator accepts every
-- password, and none.
pub accepts_no_method :
    (data_ : Dict Value) (v : Option String)
    → get "look_for_keys" data_ ≡ none
    → validate_auth_method data_ v ≡ ok v
unfolding validate_auth_method
accepts_no_method data_ v h = ground arith
