-- ===== src/Infra/Repository/Replacing.antt =====
-- What `replace` of infra/repositories.py promises.
use db_connections.Domain.{ConnectionDraft, ConnectionRecord}
use db_connections.Infra.Encryption.{EncryptionProvider}
use db_connections.Infra.Mapper.{to_record}
use db_connections.Infra.OptionsColumn.{Imports}
use db_connections.Infra.Repository.{
  get_record, replace_existing, replace_record, replaced_row, update_and_fetch,
}
use db_connections.Infra.Repository.Laws.{after_update, fetch_keeps}
use db_connections.Infra.Rows.{columns_of}
use db_connections.Infra.Session.{IsFaithful, Session}
use db_connections.Prelude.{
  Bool-cases, Option-cases, String, arith, inl, inr, some, true, ◌==◌, ◌≡◌, ◌⊎◌,
}
use db_connections.Result.{Result-cases, ok}

module _ {S : Type 0} (session : Session S) (provider : EncryptionProvider)
    (imports : Imports) where
  -- The record that a replacement returns is the one that is read next under its id, with the id,
  -- the time of creation and the deletion mark it had; no other row is touched. A replacement
  -- under an id that is not there returns nothing and leaves the store alone.
  pub get-replace :
      (connection_id : String) (draft : ConnectionDraft) (old r : ConnectionRecord) (s : S)
      → IsFaithful session
      → (get_record session provider imports connection_id s).0 ≡ ok (some old)
      → (replace_record session provider imports connection_id draft s).0 ≡ ok (some r)
      → let s' = (replace_record session provider imports connection_id draft s).1 in
        (get_record session provider imports connection_id s' ≡ (ok (some r), s'))
        × (r.id ≡ old.id)
        × (r.created_at ≡ old.created_at)
        × (r.deleted_at ≡ old.deleted_at)
        × ((j : String)
            → ((connection_id == j) ≡ true)
              ⊎ (session.select_by_id j s' ≡ session.select_by_id j s))
  unfolding replace_record replace_existing get_record to_record
  get-replace connection_id draft old r s faithful there replaced =
      elim (Option-cases (session.select_by_id connection_id s)) [
        | inl e ↦ ground arith
        | inr (row, e) ↦ elim (Result-cases (columns_of provider draft)) [
          | inl (c, e0) ↦ elim (Result-cases (session.now s).0) [
            | inl (t, e1) ↦
                elim (Result-cases
                  (update_and_fetch session provider imports connection_id (replaced_row t c)
                    (session.now s).1).0) [
                      | inl (r', e2) ↦
                          let kept =
                            fetch_keeps session provider imports connection_id s faithful in
                          let (h1, h2, h3) =
                            after_update session provider imports connection_id (replaced_row t c)
                              row r' (session.now s).1 faithful (ground arith) e2 in
                          (
                            ground arith,
                            ground arith,
                            ground arith,
                            ground arith,
                            λ j. elim (Bool-cases (connection_id == j)) [
                              | inl same ↦ inl same
                              | inr d ↦
                                  let k = fetch_keeps session provider imports j s faithful in
                                  let h = h3 j d in inr (ground arith)
                            ],
                          )
                      | inr (x, e2) ↦ ground arith
                    ]
            | inr (x, e1) ↦ ground arith
          ]
          | inr (x, e0) ↦ ground arith
        ]
      ]
