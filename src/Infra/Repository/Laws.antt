-- ===== src/Infra/Repository/Laws.antt =====
-- What the repository of infra/repositories.py promises over a session whose statements do what is
-- documented of them.
use db_connections.Dict.{Dict}
use db_connections.Domain.{
  ConnectionDraft, ConnectionRecord, Model, Time, ValidatedConnection, dump_secrets, of_model,
  of_optional_dict, to_draft,
}
use db_connections.Infra.Encryption.{EncryptionProvider, ReadsBack}
use db_connections.Infra.Mapper.{coerce_mapping, decode_driver_options, decode_secrets, to_record}
use db_connections.Infra.OptionsColumn.{Imports, process_bind_param, process_result_value}
use db_connections.Infra.Repository.{
  create_record, delete_existing, delete_record, deleted_row, get_record, insert_and_fetch, new_row,
  update_and_fetch,
}
use db_connections.Infra.Rows.{Row, columns_of}
use db_connections.Infra.Session.{IsFaithful, Session}
use db_connections.Prelude.{
  Bool-cases, Option, Option-cases, String, [], all, arith, eq_refl, false, inl, inr, none, some,
  true, ◌==◌, ◌≡◌, ◌⊎◌,
}
use db_connections.Result.{Result-cases, ok, ◌>>=◌}
use db_connections.Value.{Value, dict, is_str, items-fields_of, null, of_dict}

options_read :
    (imports : Imports) (o : Value) (m : Option Model)
    → process_result_value imports o ≡ ok m
    → decode_driver_options imports o [] ≡ record { content = m; raw = null; issues = [] }
unfolding decode_driver_options process_result_value
options_read imports null m e = ground arith
options_read imports (dict fs) m e = ground arith
options_read imports v m e = ground arith

secrets_read :
    (provider : EncryptionProvider) (c : String) (d : Dict Value)
    → provider.decrypt (some c) ≡ ok (of_dict d)
    → decode_secrets provider (some c) [] ≡ record { content = d; raw = null; issues = [] }
unfolding decode_secrets
secrets_read provider c d e = simp (e, items-fields_of)

-- A validated connection that is stored and read back is the same connection, without issues, if
-- the provider reads back what it wrote, its driver options survive the column, it has a name and
-- its labels are texts.
pub to_record-new_row :
    (provider : EncryptionProvider) (imports : Imports) (connection_id : String) (now : Time)
    (name : String) (v : ValidatedConnection)
    → ReadsBack provider (of_dict (dump_secrets v.secrets))
    → (process_bind_param (of_model v.driver_options) >>= process_result_value imports)
      ≡ ok v.driver_options
    → v.name ≡ some name
    → all (λ kv. is_str kv.1) v.labels ≡ true
    → (columns_of provider (to_draft v) >>= λ c.
        ok (to_record provider imports (new_row connection_id now c)))
      ≡ ok (record {
        envelope = to_draft v;
        id = connection_id;
        created_at = now;
        updated_at = now;
        deleted_at = none;
        read_issues = [];
        raw_properties = null;
        raw_driver_options = null;
        raw_secrets = null;
      })
unfolding columns_of to_draft to_record coerce_mapping
to_record-new_row provider imports connection_id now name v reads options named texts =
    elim (Result-cases (provider.encrypt (of_optional_dict (some (dump_secrets v.secrets))))) [
      | inl (c, e) ↦ elim (Result-cases (process_bind_param (of_model v.driver_options))) [
        | inl (o, e1) ↦
            let s = secrets_read provider c (dump_secrets v.secrets) (ground arith) in
            let m = options_read imports o v.driver_options (ground arith) in
            simp (e, e1, s, m, items-fields_of, named, texts)
        | inr (x, e1) ↦ ground arith
      ]
      | inr (x, e) ↦ ground arith
    ]

module _ {S : Type 0} (session : Session S) (provider : EncryptionProvider)
    (imports : Imports) where
  -- an insert that returns is read back
  after_insert :
      (row : Row) (r : ConnectionRecord) (s : S)
      → IsFaithful session
      → (insert_and_fetch session provider imports row s).0 ≡ ok r
      → (r ≡ to_record provider imports row)
        × (session.select_by_id row.id (insert_and_fetch session provider imports row s).1
            ≡ some row)
  unfolding insert_and_fetch
  after_insert row r s faithful x = elim (Result-cases (session.insert_row row s).0) [
    | inl (u, h) ↦ let back = faithful.select-insert row s h in ground arith
    | inr (e, h) ↦ ground arith
  ]

  -- an update that returns is read back, and other rows are as they were
  pub after_update :
      (connection_id : String) (f : Row → Row) (row : Row) (r : ConnectionRecord) (s : S)
      → IsFaithful session
      → session.select_by_id connection_id s ≡ some row
      → (update_and_fetch session provider imports connection_id f s).0 ≡ ok r
      → let s' = (update_and_fetch session provider imports connection_id f s).1 in
        (r ≡ to_record provider imports (f row))
        × (session.select_by_id connection_id s' ≡ some (f row))
        × ((j : String)
            → (connection_id == j) ≡ false
            → session.select_by_id j s' ≡ session.select_by_id j s)
  unfolding update_and_fetch
  after_update connection_id f row r s faithful there x =
      elim (Result-cases (session.update_row connection_id f s).0) [
        | inl (u, h) ↦
            let back = faithful.select-update connection_id connection_id f s h in
            let same = eq_refl connection_id in
            (
              ground arith,
              ground arith,
              λ j d. let other = faithful.select-update connection_id j f s h in ground arith,
            )
        | inr (e, h) ↦ ground arith
      ]

  -- the clock and the identifiers leave the rows alone
  pub fetch_keeps :
      (j : String) (s : S)
      → IsFaithful session
      → (session.select_by_id j (session.now s).1 ≡ session.select_by_id j s)
        × (session.select_by_id j (session.uuid4 (session.now s).1).1 ≡ session.select_by_id j s)
  fetch_keeps j s faithful =
      let a = (faithful.select-now j).at s in
      let b = (faithful.select-uuid4 j).at (session.now s).1 in ground arith

  -- A record that was created is the one that is read next under its id; it is not deleted, and
  -- its two times agree.
  pub get-create :
      (draft : ConnectionDraft) (r : ConnectionRecord) (s : S)
      → IsFaithful session
      → (create_record session provider imports draft s).0 ≡ ok r
      → let s' = (create_record session provider imports draft s).1 in
        (get_record session provider imports r.id s' ≡ (ok (some r), s'))
        × (r.deleted_at ≡ none)
        × (r.created_at ≡ r.updated_at)
  unfolding create_record get_record to_record
  get-create draft r s faithful created = elim (Result-cases (session.now s).0) [
    | inl (t, e) ↦ elim (Result-cases (session.uuid4 (session.now s).1).0) [
      | inl (i, e1) ↦ elim (Result-cases (columns_of provider draft)) [
        | inl (c, e2) ↦
            let h = after_insert (new_row i t c) r (session.uuid4 (session.now s).1).1 faithful in
            ground arith
        | inr (x, e2) ↦ ground arith
      ]
      | inr (x, e1) ↦ ground arith
    ]
    | inr (x, e) ↦ ground arith
  ]

  -- Deleting only marks the row: the record that was read before is still read under its id, with
  -- nothing changed but the mark and the time of the change, and no other row is touched.
  pub get-delete :
      (connection_id : String) (old r : ConnectionRecord) (s : S)
      → IsFaithful session
      → (get_record session provider imports connection_id s).0 ≡ ok (some old)
      → (delete_record session provider imports connection_id s).0 ≡ ok (some r)
      → let s' = (delete_record session provider imports connection_id s).1 in
        (get_record session provider imports connection_id s' ≡ (ok (some r), s'))
        × (r ≡ record old { deleted_at = some r.updated_at; updated_at = r.updated_at })
        × ((j : String)
            → ((connection_id == j) ≡ true)
              ⊎ (session.select_by_id j s' ≡ session.select_by_id j s))
  unfolding delete_record delete_existing get_record to_record
  get-delete connection_id old r s faithful there deleted =
      elim (Option-cases (session.select_by_id connection_id s)) [
        | inl e ↦ ground arith
        | inr (row, e) ↦ elim (Result-cases (session.now s).0) [
          | inl (t, e1) ↦
              elim (Result-cases
                (update_and_fetch session provider imports connection_id (deleted_row t)
                  (session.now s).1).0) [
                    | inl (r', e2) ↦
                        let kept = fetch_keeps connection_id s faithful in
                        let (h1, h2, h3) =
                          after_update connection_id (deleted_row t) row r' (session.now s).1
                            faithful (ground arith) e2 in
                        (
                          ground arith,
                          ground arith,
                          λ j. elim (Bool-cases (connection_id == j)) [
                            | inl same ↦ inl same
                            | inr d ↦
                                let k = fetch_keeps j s faithful in
                                let h = h3 j d in inr (ground arith)
                          ],
                        )
                    | inr (x, e2) ↦ ground arith
                  ]
          | inr (x, e1) ↦ ground arith
        ]
      ]
