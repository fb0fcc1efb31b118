-- ===== src/Connectors/Kafka/Checking.antt =====
-- connectors/kafka.py: `check` of both connectors.
use db_connections.Connectors.Kafka.{ConfigValue}
use db_connections.Dict.{Dict}
use db_connections.Domain.{ConnectionCheckResult}
use db_connections.Errors.{
  Error, access_denied, connection_limit_exceeded, connection_not_found,
  connection_type_not_supported, db_connection_error, infrastructure_error, other_error,
  secret_decryption_failed, validation_failed,
}
use db_connections.Exec.{Exec, lift, ◌>>=◌, ◌>>◌}
use db_connections.Prelude.{
  Bool, Option, String, arith, false, if◌then◌else◌, inl, inr, none, not, refl, some, true, ◌&&◌,
  ◌==◌, ◌≡◌,
}
use db_connections.Result.{Result, Result-cases, err, is_err, ok}

-- the admin client of kafka-python or aiokafka; `start` is aiokafka's and does nothing in the other
pub record KafkaLibrary (S : Type 0) : Type 0 where
  pub new_admin : Dict ConfigValue → Exec S (Unit {0})
  pub start : Exec S (Unit {0})
  pub list_topics : Exec S (Unit {0})
  pub close : Exec S (Unit {0})

-- `type(exc).__name__`
abbrev pub class_name : Error → String
class_name (db_connection_error m d) = "DBConnectionError"
class_name (connection_not_found i) = "ConnectionNotFoundError"
class_name (connection_type_not_supported t) = "ConnectionTypeNotSupportedError"
class_name (validation_failed m d) = "ValidationFailedError"
class_name (access_denied m d) = "AccessDeniedError"
class_name (connection_limit_exceeded n) = "ConnectionLimitExceededError"
class_name (secret_decryption_failed m d) = "SecretDecryptionError"
class_name (infrastructure_error m d) = "InfrastructureError"
class_name (other_error c m) = c

abbrev pub kafka_result : Option String → Bool → String → Option String → ConnectionCheckResult
kafka_result name connected message_ exception = record {
  name = name;
  connected = connected;
  message = some message_;
  exception = exception;
}

-- the handlers of `check`
unfoldable pub kafka_failure : Option String → Error → ConnectionCheckResult
kafka_failure name e =
    kafka_result name false
      (if class_name e == "NoBrokersAvailable"
        then "Could not connect to any Kafka brokers."
        else "Kafka connection check failed.")
      (some (class_name e))

-- `try: m finally: close`: an exception of `close` takes the place of one of `m`
abbrev pub finally_do : {S A : Type 0} → Exec S A → Exec S (Unit {0}) → Exec S A
finally_do m close s =
    let (x, s1) = m s in let (y, s2) = close s1 in (elim y [ ok u ↦ x | err e ↦ err e ], s2)

-- what is reported of a run
abbrev pub kafka_report : Option String → Result (Unit {0}) → ConnectionCheckResult
kafka_report name (ok u) = kafka_result name true "Connection to Kafka successful." none
kafka_report name (err e) = kafka_failure name e

module _ {S : Type 0} (lib : KafkaLibrary S) where
  -- the calls of a check, with the configuration or what building it raised
  unfoldable pub use_admin : Result (Dict ConfigValue) → Exec S (Unit {0})
  use_admin config = do
    c ← lift config
    lib.new_admin c
    finally_do (lib.start >>= λ u. lib.list_topics) lib.close

  -- `check`; `installed` says whether the client library could be imported
  unfoldable pub check_kafka :
      Bool → Option String → Result (Dict ConfigValue) → Exec S ConnectionCheckResult
  check_kafka installed name config s =
      if installed
      then (let (x, s') = use_admin config s in (ok (kafka_report name x), s'))
      else (err (other_error "RuntimeError" "Kafka support requires Python's kafka module"), s)

  -- the calls on a client that was made
  abbrev pub list_with : Exec S (Unit {0})
  list_with = lib.start >>= λ u. lib.list_topics

  -- With the library installed a check always returns a result, whatever the calls raise. It says
  -- that the connection works exactly if the configuration could be built and no call raised. A
  -- client that was made is closed, whether listing its topics raised or not, and that is the last
  -- call; nothing is called without a configuration.
  pub check_kafka_lem :
      (name : Option String) (c : Dict ConfigValue) (x : Error) (s : S)
      → let made = lib.new_admin c s in
        let listed = list_with made.1 in
        let closed = lib.close listed.1 in
        let run = check_kafka true name (ok c) s in
        ((result : ConnectionCheckResult) × (run.0 ≡ ok result)
          × (result.name ≡ name)
          × (result.connected
              ≡ (not (is_err made.0) && (not (is_err listed.0) && not (is_err closed.0)))))
        × (run.1 ≡ (if is_err made.0 then made.1 else closed.1))
        × (check_kafka true name (err x) s ≡ (ok (kafka_failure name x), s))
  unfolding check_kafka use_admin kafka_failure
  check_kafka_lem name c x s = elim (Result-cases (lib.new_admin c s).0) [
    | inr (e, h) ↦
        ((kafka_failure name e, ground arith, ground arith, ground arith), ground arith, refl)
    | inl (u, h) ↦ elim (Result-cases (list_with (lib.new_admin c s).1).0) [
      | inl (v, k) ↦ elim (Result-cases (lib.close (list_with (lib.new_admin c s).1).1).0) [
        | inl (w, l) ↦ (
          (
            kafka_result name true "Connection to Kafka successful." none,
            ground arith,
            refl,
            ground arith,
          ),
          ground arith,
          refl,
        )
        | inr (e, l) ↦
            ((kafka_failure name e, ground arith, refl, ground arith), ground arith, refl)
      ]
      | inr (e, k) ↦ elim (Result-cases (lib.close (list_with (lib.new_admin c s).1).1).0) [
        | inl (w, l) ↦
            ((kafka_failure name e, ground arith, refl, ground arith), ground arith, refl)
        | inr (e', l) ↦
            ((kafka_failure name e', ground arith, refl, ground arith), ground arith, refl)
      ]
    ]
  ]
