-- ===== src/Compat/Bridge/Drafting.antt =====
-- The drafts that compat/runtime_bridge.py makes of connections of the first version.
use db_connections.Compat.Bridge.{
  ConnectionType, DbConnection, Mode, mssql, split_connection_data, sql_data, to_runtime_draft,
  type_value, uses_runtime_bridge,
}
use db_connections.Compat.Bridge.Splitting.{keys_moved, keys_of_secrets, present, data-IsSplit}
use db_connections.Dict.{Dict, get}
use db_connections.Domain.{ConnectionDraft, Model, TypeSpec}
use db_connections.Prelude.{
  Bool, Bool-cases, String, [], arith, elem, false, get_or, if◌then◌else◌, inl, inr, none, not,
  refl, some, ◌||◌, ◌≡◌,
}
use db_connections.Registry.{ConnectionRegistry, get_type}
use db_connections.Result.{Result, Result-cases, is_err, ok}
use db_connections.Value.{Value, is_null, null}

-- whether the driver's name that MSSQL needs is missing or refused
abbrev pub lacks_odbc : (Value → Result Model) → ConnectionType → Dict Value → Bool
lacks_odbc odbc_driver_options mssql raw =
    let name = get_or (get "driver_name" raw) null in
    is_null name || is_err (odbc_driver_options name)
lacks_odbc odbc_driver_options _ raw = false

module _ (odbc_driver_options : Value → Result Model) where
  split-is_err :
      (t : ConnectionType) (mode : Mode) (raw : Dict Value)
      → is_err (split_connection_data odbc_driver_options t mode raw)
        ≡ (not (uses_runtime_bridge t) || lacks_odbc odbc_driver_options t raw)
  unfolding split_connection_data sql_data uses_runtime_bridge
  split-is_err mssql mode raw =
      elim (Result-cases (odbc_driver_options (get_or (get "driver_name" raw) null))) [
        | inl (m, e) ↦ ground arith
        | inr (x, e) ↦ ground arith
      ]
  split-is_err t mode raw = refl

  module _ (runtime_registry : ConnectionRegistry) (mode : Mode) (c : DbConnection) where
    -- A connection of the first version is refused exactly if its type is not backed by the
    -- runtime, or the registry does not have the type, or it is MSSQL's and the name of the ODBC
    -- driver is missing or refused; every other connection becomes a draft.
    pub to_runtime_draft-is_err :
        is_err (to_runtime_draft odbc_driver_options runtime_registry mode c) ≡ (
          not (uses_runtime_bridge c.type)
          || (is_err (get_type (type_value c.type) runtime_registry)
              || lacks_odbc odbc_driver_options c.type c.connection_properties))
    unfolding to_runtime_draft
    to_runtime_draft-is_err =
        let s = split-is_err c.type mode c.connection_properties in
        elim (Bool-cases (uses_runtime_bridge c.type)) [
          | inr b ↦ ground arith
          | inl b ↦ elim (Result-cases (get_type (type_value c.type) runtime_registry)) [
            | inr (x, e) ↦ ground arith
            | inl (spec, e) ↦
                elim (Result-cases
                  (split_connection_data odbc_driver_options c.type mode c.connection_properties)) [
                    | inl (d, e1) ↦ ground arith
                    | inr (x, e1) ↦ ground arith
                  ]
          ]
        ]

    -- The draft that is made has the name of the connection and the kind that the registry has for
    -- its type. Its properties are the connection's, but for the keys that hold its secrets and,
    -- for SQL, the driver's name; its secrets are those that are not `None`, and nothing else.
    pub to_runtime_draft_lem :
        (draft : ConnectionDraft) (k : String)
        → to_runtime_draft odbc_driver_options runtime_registry mode c ≡ ok draft
        → (draft.name ≡ some c.name)
          × ((spec : TypeSpec) × (get_type (type_value c.type) runtime_registry ≡ ok spec)
              × (draft.kind ≡ spec.kind))
          × (get k (get_or draft.properties [])
              ≡ (if elem k (keys_moved c.type) then none else get k c.connection_properties))
          × (get k (get_or draft.secrets []) ≡ (
              if elem k (keys_of_secrets c.type)
              then present (get k c.connection_properties)
              else none))
    unfolding to_runtime_draft
    to_runtime_draft_lem draft k h = elim (Bool-cases (uses_runtime_bridge c.type)) [
      | inr b ↦ ground arith
      | inl b ↦ elim (Result-cases (get_type (type_value c.type) runtime_registry)) [
        | inr (x, e) ↦ ground arith
        | inl (spec, e) ↦
            elim (Result-cases
              (split_connection_data odbc_driver_options c.type mode c.connection_properties)) [
                | inl (d, e1) ↦
                    let (p, s) =
                      data-IsSplit odbc_driver_options c.type mode c.connection_properties d k e1 in
                    let ps : draft.properties ≡ some d.properties = ground arith in
                    let ss : draft.secrets ≡ some d.secrets = ground arith in
                    (ground arith, (spec, e, ground arith), rw ps p, rw ss s)
                | inr (x, e1) ↦ ground arith
              ]
      ]
    ]
