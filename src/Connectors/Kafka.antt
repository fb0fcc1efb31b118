-- ===== src/Connectors/Kafka.antt =====
-- connectors/kafka.py: the configuration of the Kafka clients, and the check of a connection. The
-- client libraries are given by their calls, each a step on a state, which may raise.
pub mod Checking
use db_connections.Connectors.Stripping.{is_space, split_comma, strip}
use db_connections.Dict.{Dict}
use db_connections.Int.{ℤ}
use db_connections.Prelude.{
  Bool, List, Option, String, [], elem, if◌then◌else◌, map, none, some, truthy, ◌++◌, ◌∷◌,
}
use db_connections.Value.{Value, int, list, of_list, str}

-- `KafkaProperties`, once pydantic has read them
pub record KafkaProperties : Type 0 where
  pub bootstrap_servers : List String
  pub security_protocol : String
  pub ssl_ca_pem : Option String
  pub sasl_mechanism : Option String
  pub sasl_plain_username : Option String
  pub client_id : String
  pub request_timeout_ms : ℤ

-- `KafkaSecrets`
pub record KafkaSecrets : Type 0 where
  pub sasl_plain_password : Option String

-- `[item.strip() for item in value.split(",") if item.strip()]`
abbrev strip_items : List String → List String
strip_items [] = []
strip_items (item ∷ rest) =
    let items_ = strip_items rest in
    let stripped = strip is_space item in if truthy stripped then stripped ∷ items_ else items_

-- `normalize_bootstrap_servers`
unfoldable pub normalize_bootstrap_servers : Value → Value
normalize_bootstrap_servers (str s) = list (of_list (map str (strip_items (split_comma s))))
normalize_bootstrap_servers v = v

-- the values of a configuration: JSON's, or an SSL context with the CA that it loads
pub data ConfigValue : Type 0 where
  plain_value : Value → ConfigValue
  ssl_context : Option String → ConfigValue

-- an entry that `exclude_none` leaves out
abbrev config_text : String → Option String → Dict ConfigValue
config_text key none = []
config_text key (some s) = (key, plain_value (str s)) ∷ []

-- `props.security_protocol in {"SSL", "SASL_SSL"}`
abbrev pub is_ssl : KafkaProperties → Bool
is_ssl p = elem p.security_protocol ("SSL" ∷ "SASL_SSL" ∷ [])

-- `if props.ssl_ca_pem: context.load_verify_locations(...)`
abbrev ca_of : Option String → Option String
ca_of none = none
ca_of (some s) = if truthy s then some s else none

-- `build_kafka_config`, after `model_validate`; loading the CA does not raise in the model
unfoldable pub build_kafka_config : KafkaProperties → KafkaSecrets → Dict ConfigValue
build_kafka_config p credentials =
    ("bootstrap_servers", plain_value (list (of_list (map str p.bootstrap_servers))))
    ∷ ("security_protocol", plain_value (str p.security_protocol))
    ∷ (config_text "sasl_mechanism" p.sasl_mechanism
        ++ (config_text "sasl_plain_username" p.sasl_plain_username
            ++ (("client_id", plain_value (str p.client_id))
                ∷ ("request_timeout_ms", plain_value (int p.request_timeout_ms))
                ∷ (config_text "sasl_plain_password" credentials.sasl_plain_password
                    ++ (if is_ssl p
                        then ("ssl_context", ssl_context (ca_of p.ssl_ca_pem)) ∷ []
                        else [])))))
