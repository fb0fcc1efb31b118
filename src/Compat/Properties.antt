-- ===== src/Compat/Properties.antt =====
-- compat/connection_properties.py: the validators of the first version's properties.
use db_connections.Connectors.Stripping.{is_slash, is_space, split_comma, strip, strip_idem}
use db_connections.Errors.{other_error}
use db_connections.Prelude.{
  Bool, List, Option, String, [], arith, get_or, if◌then◌else◌, map, none, not, quote, refl, some,
  subst, true, truthy, ◌∷◌, ◌≡◌,
}
use db_connections.Result.{Result, err, ok}
use db_connections.Value.{Value, list, null, of_list, str}

-- what `str(value)` gives of a value that is not `None`; only texts are modelled as themselves, and
-- the text of any other value is an argument
module _ (to_text : Value → String) where
  abbrev text_of : Value → String
  text_of (str s) = s
  text_of v = to_text v

  -- `S3ConnectionProperties.normalize_bucket`
  unfoldable pub normalize_bucket_name : Value → Result String
  normalize_bucket_name value =
      let bucket : String = elim value [ null ↦ "" | v ↦ strip is_space (text_of v) ] in
      if truthy bucket
      then ok bucket
      else err (other_error "ValueError" "bucket must be a non-empty string.")

  -- `S3ConnectionProperties.normalize_prefix`: slashes first, and then spaces
  unfoldable pub normalize_prefix_text : Value → Result String
  normalize_prefix_text value =
      let prefix = strip is_space (elim value [ null ↦ "" | v ↦ strip is_slash (text_of v) ]) in
      if truthy prefix
      then ok prefix
      else err (
          other_error "ValueError"
            "prefix must be a non-empty string without leading/trailing slashes.")

  -- `S3ConnectionProperties.normalize_endpoint`
  unfoldable pub normalize_endpoint : Value → Option String
  normalize_endpoint null = none
  normalize_endpoint v =
      let endpoint = strip is_space (text_of v) in if truthy endpoint then some endpoint else none

abbrev strip_each : List String → List String
strip_each [] = []
strip_each (s ∷ ss) = strip is_space s ∷ strip_each ss

-- `KafkaConnectionProperties.ensure_list`: empty items stay
unfoldable pub ensure_list : Value → Result Value
ensure_list (str s) = ok (list (of_list (map str (strip_each (split_comma s)))))
ensure_list (list xs) = ok (list xs)
ensure_list v =
    err (other_error "ValueError" "bootstrap_servers must be a string or a list of strings.")

-- the methods of `FTPConnectionProperties` that the connector logs in with
unfoldable pub get_effective_username : Bool → Option String → String
get_effective_username anonymous username = if anonymous then "anonymous" else get_or username ""

unfoldable pub get_effective_password : Bool → Option String → String
get_effective_password anonymous password = if anonymous then "" else get_or password ""

-- `SFTPConnectionProperties.validate_private_key_path`: the path itself is kept, not stripped
unfoldable pub validate_key_path :
    (String → Bool) → (String → Bool) → Option String → Result (Option String)
validate_key_path path_exists is_file none = ok none
validate_key_path path_exists is_file (some v) =
    if not (truthy v)
    then ok (some v)
    else if not (truthy (strip is_space v))
    then ok none
    else if not (path_exists v)
    then err (other_error "ValueError" (quote "Private key file not found: " v ""))
    else if not (is_file v)
    then err (other_error "ValueError" (quote "Private key path is not a file: " v ""))
    else ok (some v)

-- the endpoint that is kept is stripped, and normalised again to itself
pub normalize_endpoint_idem :
    (to_text : Value → String) (v : Value) (s : String)
    → normalize_endpoint to_text v ≡ some s
    → normalize_endpoint to_text (str s) ≡ some s
unfolding normalize_endpoint
normalize_endpoint_idem to_text null s h = ground arith
normalize_endpoint_idem to_text v s h =
    let same : strip is_space (text_of to_text v) ≡ s = ground arith in
    let full : truthy s ≡ true = ground arith in
    let kept : strip is_space s ≡ s =
      subst (λ x. strip is_space x ≡ x) same (strip_idem is_space (text_of to_text v)) in
    rw (kept, full) refl
