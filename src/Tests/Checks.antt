-- ===== src/Tests/Checks.antt =====
-- Checks of Kafka and SFTP at libraries whose state is the list of calls, and the prefixes of S3.
use db_connections.Connectors.Kafka.Checking.{KafkaLibrary, check_kafka, use_admin}
use db_connections.Connectors.S3.{normalize_prefix}
use db_connections.Connectors.Sftp.{SftpLibrary, SftpProperties, SftpSecrets}
use db_connections.Connectors.Stripping.{strip, strip_left, strip_right}
use db_connections.Errors.{other_error}
use db_connections.Exec.{Exec}
use db_connections.Int.{pos}
use db_connections.Prelude.{List, String, [], false, none, refl, some, true, ◌∷◌, ◌≡◌}
use db_connections.Result.{err, ok}
use db_connections.Value.{str}

abbrev logged : String → Exec (List String) (Unit {0})
logged call s = (ok tt, call ∷ s)

abbrev raised : String → Exec (List String) (Unit {0})
raised call s = (err (other_error "TimeoutError" call), call ∷ s)

-- listing the topics times out
abbrev slow_kafka : KafkaLibrary (List String)
slow_kafka = record {
  new_admin = λ c. logged "admin";
  start = logged "start";
  list_topics = raised "list";
  close = logged "close";
}

-- what the state is then: the client was closed last
closed_last :
    (check_kafka slow_kafka true none (ok []) []).1 ≡ "close" ∷ "list" ∷ "start" ∷ "admin" ∷ []
unfolding check_kafka use_admin
closed_last = refl

-- normalising a prefix again can change it
normalize_prefix_twice :
    (normalize_prefix (str "/ a") ≡ ok (str " a")) × (normalize_prefix (str " a") ≡ ok (str "a"))
unfolding normalize_prefix strip strip_left strip_right
normalize_prefix_twice = (refl, refl)

abbrev sftp_properties : SftpProperties
sftp_properties = record {
  host = "files";
  port = pos 22;
  username = "app";
  private_key_path = none;
  initial_directory = some "/data";
  allow_agent = false;
}

abbrev sftp_secrets : SftpSecrets
sftp_secrets = record {
  password = some "hunter2";
  private_key_passphrase = none;
  private_key_string = none;
}

-- opening the session times out
abbrev slow_sftp : SftpLibrary (List String)
slow_sftp = record {
  key_classes = [];
  is_reachable = λ host port s. true;
  connect = λ a. logged "connect";
  open_sftp = raised "open";
  chdir = λ d. logged "chdir";
  getcwd = λ s. (ok "/", s);
  close_sftp = logged "close";
  close_ssh = logged "close ssh";
}
