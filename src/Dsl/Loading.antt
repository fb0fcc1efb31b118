-- ===== src/Dsl/Loading.antt =====
-- dsl/loader.py: `load_dsl_file`. Files, JSON, YAML and pydantic are given by their calls.
use db_connections.Dsl.Config.{DbConnectionDslConfig}
use db_connections.Errors.{Error, validation_failed}
use db_connections.Prelude.{Bool, String, [], if◌then◌else◌, refl, ◌==◌, ◌||◌, ◌∷◌, ◌≡◌}
use db_connections.Result.{Result, err, ok, ◌>>=◌}
use db_connections.Value.{Value, null, of_dict, str, truthy_value}

pub record DslLibrary : Type 0 where
  -- `read_text`, and the suffix in lower case
  pub read_text : String → Result String
  pub suffix_of : String → String
  pub json_loads : String → Result Value
  pub yaml_safe_load : String → Result Value
  pub model_validate : Value → Result DbConnectionDslConfig
  -- `isinstance(exc, OSError)`, `json.JSONDecodeError` and `yaml.YAMLError`
  pub is_os_error : Error → Bool
  pub is_json_error : Error → Bool
  pub is_yaml_error : Error → Bool

-- `except cls as exc: raise ValidationFailedError(text, details=...)`
abbrev pub translate : {A : Type 0} → (Error → Bool) → Error → Result A → Result A
translate caught instead (ok a) = ok a
translate caught instead (err e) = if caught e then err instead else err e

abbrev pub file_error : String → String → Error
file_error text path = validation_failed text (("path", str path) ∷ [])

abbrev pub unsupported : String → String → Error
unsupported path suffix =
    validation_failed "DB Connection DSL file format is not supported."
      (("path", str path) ∷ ("suffix", str suffix) ∷ [])

module _ (lib : DslLibrary) where
  -- `yaml.safe_load(raw_text) or {}`
  abbrev or_empty : Value → Value
  or_empty v = if truthy_value v then v else of_dict []

  -- the branches on the suffix
  unfoldable pub parse_dsl : String → String → String → Result DbConnectionDslConfig
  parse_dsl path suffix raw_text =
      if suffix == ".json"
      then (translate lib.is_json_error (file_error "DB Connection DSL JSON is invalid." path)
            (lib.json_loads raw_text)
          >>= lib.model_validate)
      else if suffix == ".yaml" || suffix == ".yml"
      then (translate lib.is_yaml_error (file_error "DB Connection DSL YAML is invalid." path)
            (lib.yaml_safe_load raw_text)
          >>= λ v. lib.model_validate (or_empty v))
      else err (unsupported path suffix)

  -- `load_dsl_file`
  unfoldable pub load_dsl_file : String → Result DbConnectionDslConfig
  load_dsl_file path =
      translate lib.is_os_error (file_error "DB Connection DSL file could not be read." path)
        (lib.read_text path)
      >>= parse_dsl path (lib.suffix_of path)

  -- an empty file in YAML is the empty configuration
  pub load_dsl_file_edges :
      (path text_ : String)
      → lib.read_text path ≡ ok text_
      → (lib.suffix_of path ≡ ".yml")
      → lib.yaml_safe_load text_ ≡ ok null
      → load_dsl_file path ≡ lib.model_validate (of_dict [])
  unfolding load_dsl_file parse_dsl
  load_dsl_file_edges path text_ readable yml empty = rw (readable, yml, empty) refl
