-- ===== src/Compat/Bridge/Splitting.antt =====
-- Where the properties and the secrets of a connection of the first version go
-- (compat/runtime_bridge.py).
use db_connections.Compat.Bridge.{
  ConnectionData, ConnectionType, Mode, custom, drop_none, extract_secrets, ftp, is_sql_type, kafka,
  mssql, pop_missing, popped, s3, sftp, split_connection_data, sql_data,
}
use db_connections.Dict.{Dict, erase, get, get-erase}
use db_connections.Domain.{Model}
use db_connections.Prelude.{
  List, Option, Option-cases, String, [], arith, elem, eq_iff, get_or, if◌then◌else◌, inl, inr,
  none, refl, some, ◌∷◌, ◌≡◌,
}
use db_connections.Result.{Result, Result-cases, ok}
use db_connections.Value.{Value, is_null, null}

-- the keys that hold the secrets of a type
abbrev pub keys_of_secrets : ConnectionType → List String
keys_of_secrets kafka = "sasl_plain_password" ∷ []
keys_of_secrets s3 = "access_token_id" ∷ "access_token_key" ∷ "session_token" ∷ []
keys_of_secrets sftp = "password" ∷ "private_key_passphrase" ∷ "private_key_string" ∷ []
keys_of_secrets custom = []
keys_of_secrets _ = "password" ∷ []

-- the keys that are no properties: of a SQL type the driver's name as well
abbrev pub keys_moved : ConnectionType → List String
keys_moved t = if is_sql_type t then "driver_name" ∷ keys_of_secrets t else keys_of_secrets t

-- an entry that is there and not `None`
abbrev pub present : Option Value → Option Value
present none = none
present (some v) = if is_null v then none else some v

abbrev pairs : List String → Dict Value → Dict Value
pairs [] raw = []
pairs (key ∷ names) raw = (key, get_or (get key raw) null) ∷ pairs names raw

get-drop_none :
    (names : List String) (raw : Dict Value) (k : String)
    → get k (drop_none (pairs names raw)) ≡ (if elem k names then present (get k raw) else none)
unfolding drop_none
get-drop_none [] raw k = refl
get-drop_none (key ∷ names) raw k = elim (Option-cases (get key raw)) [
  | inl e ↦ ground (arith, eq_iff key k, get-drop_none names raw k)
  | inr (v, e) ↦ ground (arith, eq_iff key k, get-drop_none names raw k)
]

abbrev erase_all : List String → Dict Value → Dict Value
erase_all [] d = d
erase_all (key ∷ names) d = erase_all names (erase key d)

get-erase_all :
    (names : List String) (d : Dict Value) (k : String)
    → get k (erase_all names d) ≡ (if elem k names then none else get k d)
get-erase_all [] d k = refl
get-erase_all (key ∷ names) d k =
    ground (arith, eq_iff key k, get-erase key k d, get-erase_all names (erase key d) k)

-- what became of each key
abbrev pub IsSplit : List String → List String → Dict Value → ConnectionData → String → Type 0
IsSplit moved secret raw data_ k =
    (get k data_.properties ≡ (if elem k moved then none else get k raw))
    × (get k data_.secrets ≡ (if elem k secret then present (get k raw) else none))

parts-IsSplit :
    (moved secret : List String) (raw : Dict Value) (data_ : ConnectionData) (k : String)
    → data_.properties ≡ erase_all moved raw
    → data_.secrets ≡ drop_none (pairs secret raw)
    → IsSplit moved secret raw data_ k
parts-IsSplit moved secret raw data_ k e f =
    (rw e (get-erase_all moved raw k), rw f (get-drop_none secret raw k))

same_data :
    (a b : ConnectionData) → ok a ≡ ok b → (b.properties ≡ a.properties) × (b.secrets ≡ a.secrets)
same_data a b h = ground arith

module _ (odbc_driver_options : Value → Result Model) where
  sql_parts :
      (t : ConnectionType) (mode : Mode) (name : Value) (raw secrets : Dict Value)
      (data_ : ConnectionData)
      → sql_data odbc_driver_options t mode name raw secrets ≡ ok data_
      → (data_.properties ≡ raw) × (data_.secrets ≡ secrets)
  unfolding sql_data
  sql_parts mssql mode name raw secrets data_ h = elim (Result-cases (odbc_driver_options name)) [
    | inl (m, e) ↦ ground arith
    | inr (x, e) ↦ ground arith
  ]
  sql_parts t mode name raw secrets data_ h = same_data _ data_ h

  sql-IsSplit :
      (t : ConnectionType) (mode : Mode) (raw : Dict Value) (data_ : ConnectionData) (k : String)
      → sql_data odbc_driver_options t mode
          (get_or (get "driver_name" raw) null)
          (erase "password" (erase "driver_name" raw))
          (popped odbc_driver_options "password" (erase "driver_name" raw))
        ≡ ok data_
      → IsSplit ("driver_name" ∷ "password" ∷ []) ("password" ∷ []) raw data_ k
  unfolding extract_secrets pop_missing
  sql-IsSplit t mode raw data_ k h =
      let (e, f) = sql_parts t mode _ _ _ data_ h in
      parts-IsSplit ("driver_name" ∷ "password" ∷ []) ("password" ∷ []) raw data_ k e
        (simp (f, get-erase))

  pub data-IsSplit :
      (t : ConnectionType) (mode : Mode) (raw : Dict Value) (data_ : ConnectionData) (k : String)
      → split_connection_data odbc_driver_options t mode raw ≡ ok data_
      → IsSplit (keys_moved t) (keys_of_secrets t) raw data_ k
  unfolding split_connection_data extract_secrets pop_missing
  data-IsSplit kafka mode raw data_ k h =
      let (e, f) = same_data _ data_ h in
      parts-IsSplit (keys_moved kafka) (keys_of_secrets kafka) raw data_ k e f
  data-IsSplit s3 mode raw data_ k h =
      let (e, f) = same_data _ data_ h in
      parts-IsSplit (keys_moved s3) (keys_of_secrets s3) raw data_ k e (simp (f, get-erase))
  data-IsSplit ftp mode raw data_ k h =
      let (e, f) = same_data _ data_ h in
      parts-IsSplit (keys_moved ftp) (keys_of_secrets ftp) raw data_ k e f
  data-IsSplit sftp mode raw data_ k h =
      let (e, f) = same_data _ data_ h in
      parts-IsSplit (keys_moved sftp) (keys_of_secrets sftp) raw data_ k e (simp (f, get-erase))
  data-IsSplit custom mode raw data_ k h = ground arith
  data-IsSplit t mode raw data_ k h = sql-IsSplit t mode raw data_ k h
