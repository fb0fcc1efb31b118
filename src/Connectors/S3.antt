-- ===== src/Connectors/S3.antt =====
-- connectors/s3.py: the properties of S3 connections, the arguments of their client, and the check.
-- boto3 is given by its calls, each a step on a state, which may raise.
use db_connections.Connectors.Stripping.{is_slash, is_space, strip, strip_idem}
use db_connections.Dict.{Dict, get}
use db_connections.Domain.{ConnectionCheckResult}
use db_connections.Errors.{Error, message, other_error}
use db_connections.Exec.{Exec, pure, ◌>>◌}
use db_connections.Prelude.{
  Bool, Option, String, [], arith, elem, false, get_or, if◌then◌else◌, inl, inr, is_nonempty,
  keep_if, none, not, refl, some, subst, true, truthy, ◌&&◌, ◌++◌, ◌∷◌, ◌≡◌,
}
use db_connections.Result.{Result, Result-cases, err, is_err, ok}
use db_connections.Value.{Value, bool, is_null, null, of_dict, str, truthy_value}

-- `normalize_bucket`, of a text
unfoldable pub normalize_bucket : String → Result String
normalize_bucket value =
    let bucket = strip is_space value in
    if truthy bucket
    then ok bucket
    else err (other_error "ValueError" "bucket must be a non-empty string")

-- `normalize_prefix`
unfoldable pub normalize_prefix : Value → Result Value
normalize_prefix (str s) =
    if truthy s then ok (str (strip is_slash (strip is_space s))) else ok null
normalize_prefix v =
    if truthy_value v
    then err (other_error "ValueError" "prefix must be a string or None")
    else ok null

-- what the client is made with: values of the dumps, or a `Config`
pub data ClientArgument : Type 0 where
  argument : Value → ClientArgument
  botocore_config : Dict Value → ClientArgument

-- `value is not None`
abbrev is_passed : ClientArgument → Bool
is_passed (argument v) = not (is_null v)
is_passed (botocore_config d) = true

-- `d.get(key)`
abbrev pub read_key : String → Dict Value → Value
read_key key d = get_or (get key d) null

-- `config_kwargs`
unfoldable pub config_kwargs : Dict Value → Dict Value
config_kwargs props =
    (if truthy_value (read_key "signature_version" props)
      then ("signature_version", read_key "signature_version" props) ∷ []
      else [])
    ++ (if truthy_value (read_key "path_style" props)
        then ("s3", of_dict (("addressing_style", str "path") ∷ [])) ∷ []
        else [])

-- the arguments of `boto3.client("s3", ...)`; `has_config` says whether botocore is installed
unfoldable pub client_arguments : Bool → Dict Value → Dict Value → Dict ClientArgument
client_arguments has_config props secrets =
    keep_if (λ kv. is_passed kv.1)
      (("region_name", argument (read_key "region_name" props))
        ∷ ("endpoint_url", argument (read_key "endpoint_url" props))
        ∷ ("aws_access_key_id", argument (read_key "access_token_id" secrets))
        ∷ ("aws_secret_access_key", argument (read_key "access_token_key" secrets))
        ∷ ("aws_session_token", argument (read_key "session_token" secrets))
        ∷ ("use_ssl", argument (get_or (get "use_ssl" props) (bool true)))
        ∷ ("verify", argument (get_or (get "verify" props) (bool true)))
        ∷ (if is_nonempty (config_kwargs props) && has_config
            then ("config", botocore_config (config_kwargs props)) ∷ []
            else []))

-- the calls of boto3
pub record S3Library (S : Type 0) : Type 0 where
  pub has_config : Bool
  pub new_client : Dict ClientArgument → Exec S (Unit {0})
  pub list_objects : Value → Value → Exec S (Unit {0})
  -- `close`, if the client has it
  pub close : Option (Exec S (Unit {0}))

-- `except (ClientError, EndpointConnectionError)`
abbrev is_client_error : Error → Bool
is_client_error (other_error c m) = elem c ("ClientError" ∷ "EndpointConnectionError" ∷ [])
is_client_error _ = false

abbrev pub s3_result : Option String → Bool → String → Option String → ConnectionCheckResult
s3_result name connected message_ exception = record {
  name = name;
  connected = connected;
  message = some message_;
  exception = exception;
}

-- the handlers of `_check_blocking`
unfoldable pub s3_failure : Option String → Error → ConnectionCheckResult
s3_failure name e =
    s3_result name false (if is_client_error e then "S3 connectivity check failed." else message e)
      (some (message e))

-- what is reported of a run
abbrev pub s3_report : Option String → Result (Unit {0}) → ConnectionCheckResult
s3_report name (ok u) = s3_result name true "Connection to S3 successful." none
s3_report name (err e) = s3_failure name e

-- `props["prefix"] or ""`
abbrev prefix_of : Dict Value → Value
prefix_of props =
    let prefix = read_key "prefix" props in if truthy_value prefix then prefix else str ""

module _ {S : Type 0} (lib : S3Library S) where
  -- `close_fn()`, if it can be called
  abbrev pub close_fn : Exec S (Unit {0})
  close_fn = elim lib.close [ none ↦ pure tt | some f ↦ f ]

  -- `_get_client_blocking`
  unfoldable pub get_client_blocking : Dict Value → Dict Value → Exec S (Unit {0})
  get_client_blocking props secrets = lib.new_client (client_arguments lib.has_config props secrets)

  -- the calls of a check
  unfoldable pub list_bucket : Dict Value → Dict Value → Exec S (Unit {0})
  list_bucket props secrets = do
    get_client_blocking props secrets
    lib.list_objects (read_key "bucket" props) (prefix_of props)
    close_fn

  -- `_check_blocking`
  unfoldable pub check_s3 : Option String → Dict Value → Dict Value → S → ConnectionCheckResult × S
  check_s3 name props secrets s =
      let (x, s') = list_bucket props secrets s in (s3_report name x, s')

  -- A check always ends with a result. It says that the connection works exactly if the client was
  -- made and neither listing the bucket nor closing raised. The client is closed only if listing
  -- did not raise: else the listing is the last call.
  pub check_s3_lem :
      (name : Option String) (props secrets : Dict Value) (s : S)
      → let made = get_client_blocking props secrets s in
        let listed = lib.list_objects (read_key "bucket" props) (prefix_of props) made.1 in
        let closed = close_fn listed.1 in
        let run = check_s3 name props secrets s in
        (run.0.connected
          ≡ (not (is_err made.0) && (not (is_err listed.0) && not (is_err closed.0))))
        × (run.0.name ≡ name)
        × (run.1
            ≡ (if is_err made.0 then made.1 else if is_err listed.0 then listed.1 else closed.1))
  unfolding check_s3 list_bucket s3_failure
  check_s3_lem name props secrets s =
      let made = get_client_blocking props secrets s in
      let listed = lib.list_objects (read_key "bucket" props) (prefix_of props) made.1 in
      elim (Result-cases made.0) [
        | inr (e, h) ↦ (ground arith, ground arith, ground arith)
        | inl (u, h) ↦ elim (Result-cases listed.0) [
          | inr (e, k) ↦ (ground arith, ground arith, ground arith)
          | inl (v, k) ↦ elim (Result-cases (close_fn listed.1).0) [
            | inr (e, l) ↦ (ground arith, ground arith, ground arith)
            | inl (w, l) ↦ (ground arith, ground arith, ground arith)
          ]
        ]
      ]

-- A bucket's name that passes is stripped and not empty, and passes again unchanged.
pub normalize_bucket_lem :
    (value bucket : String)
    → normalize_bucket value ≡ ok bucket
    → (strip is_space bucket ≡ bucket)
      × (truthy bucket ≡ true)
      × (normalize_bucket bucket ≡ ok bucket)
unfolding normalize_bucket
normalize_bucket_lem value bucket h =
    let twice = strip_idem is_space value in
    let same : strip is_space value ≡ bucket = ground arith in
    let full : truthy bucket ≡ true = ground arith in
    let kept : strip is_space bucket ≡ bucket = subst (λ x. strip is_space x ≡ x) same twice in
    (kept, full, rw (kept, full) refl)
