-- ===== src/System/Visible.antt =====
-- What a service call (application/service.py) that returned has written, the next one reads.
use db_connections.Domain.{ConnectionDraft, ConnectionPatch, ConnectionRecord, ValidatedConnection}
use db_connections.Errors.{connection_not_found}
use db_connections.Exec.{lift, ◌>>=◌}
use db_connections.Exec.Preserves.{Preserves, preserves_rules}
use db_connections.Infra.Encryption.{EncryptionProvider}
use db_connections.Infra.Mapper.{to_record}
use db_connections.Infra.OptionsColumn.{Imports}
use db_connections.Infra.Repository.{create_record, delete_record, get_record, replace_record}
use db_connections.Infra.Repository.Laws.{get-create, get-delete}
use db_connections.Infra.Repository.Replacing.{get-replace}
use db_connections.Infra.Session.{IsFaithful, Session}
use db_connections.Prelude.{
  Option, Option-cases, String, ap, arith, inl, inr, is_some, map_option, none, some, sym, true,
  ◌∙◌, ◌≡◌,
}
use db_connections.Result.{err, ok}
use db_connections.Service.{
  context, run_can_create, ConnectionService, UnitOfWork, check_limit, commit_if, create, create_in,
  delete_connection, delete_in, found_record, get_connection, get_in, prepare_update, require,
  to_persisted_draft, update_connection, update_in, use_uow,
}
use db_connections.System.Durable.{
  IsDurable, IsReadLater, IsReadLater-bind, IsReadLater-commit_if, IsReadLater-managed, bind_ok,
  get_found, get_marked, MayRead, over_sql, uow,
}
use db_connections.Validation.{validate}
use db_connections.Value.{Value}

module _ {S : Type 0} (session : Session S) (provider : EncryptionProvider) (imports : Imports)
    (service : ConnectionService S) (actor : Value) (faithful : IsFaithful session)
    (durable : IsDurable session) where
  -- the record of the row under an identifier
  abbrev row_read : String → S → Option ConnectionRecord
  row_read i s = map_option (to_record provider imports) (session.select_by_id i s)

  abbrev sql_service : ConnectionService S
  sql_service = over_sql session provider imports service actor

  abbrev work : UnitOfWork S
  work = uow session provider imports

  -- records that are not deleted, under their own identifier
  abbrev IsAlive : ConnectionRecord → Type 0
  IsAlive r = r.deleted_at ≡ none

  abbrev own_id : ConnectionRecord → String
  own_id r = r.id

  -- `get` reads the row
  row_of_get :
      (i : String) (a : ConnectionRecord) (s : S)
      → get_record session provider imports i s ≡ (ok (some a), s)
      → row_read i s ≡ some a
  unfolding get_record
  row_of_get i a s h = let h' = ap (λ x. x.0) h in ground arith

  create_in-IsReadLater :
      (resolved : ConnectionDraft) (v : ValidatedConnection) (s : S)
      → IsReadLater session provider imports own_id IsAlive durable
          (create_in sql_service actor resolved v work true s)
  unfolding create_in
  create_in-IsReadLater resolved v s =
      IsReadLater-bind session provider imports own_id IsAlive durable
        (check_limit sql_service actor work) _ s
        (λ u e.
          IsReadLater-bind session provider imports own_id IsAlive durable
            (lift (to_persisted_draft resolved v)) _ _
            (λ d e1.
              IsReadLater-bind session provider imports own_id IsAlive durable
                (create_record session provider imports d) _ _
                (λ a e2.
                  let (g, alive, times) = get-create session provider imports d a _ faithful e2 in
                  IsReadLater-commit_if session provider imports own_id IsAlive durable a _
                    (row_of_get a.id a _ g) alive)))

  -- what `get` of the service finds
  found_row :
      (i : String) (old : ConnectionRecord) (s : S)
      → (get_connection sql_service actor i (some work) s).0 ≡ ok old
      → ((get_record session provider imports i s).0 ≡ ok (some old))
        × IsAlive old
        × ((get_connection sql_service actor i (some work) s).1 ≡ s)
  unfolding get_connection use_uow get_in get_record found_record
  found_row i old s h = elim (Option-cases (session.select_by_id i s)) [
    | inl e ↦ ground arith
    | inr (row, e) ↦ ground arith
  ]

  prepare_silent :
      (i : String) (p : ConnectionPatch) (r : ConnectionRecord) (s : S)
      → (prepare_update sql_service actor i p r s).1 ≡ s
  unfolding prepare_update
  prepare_silent i p r s =
      let silent : Preserves (λ s'. s') (prepare_update sql_service actor i p r) =
        search preserves_rules depth 8 in
      silent.at s

  replaced_last :
      (i : String) (d : ConnectionDraft) (old : ConnectionRecord) (o : Option ConnectionRecord)
      (s : S)
      → (get_record session provider imports i s).0 ≡ ok (some old)
      → IsAlive old
      → (replace_record session provider imports i d s).0 ≡ ok o
      → IsReadLater session provider imports
          (λ r. i)
          IsAlive
          durable
          ((lift (require sql_service actor i o) >>= commit_if true work)
            (replace_record session provider imports i d s).1)
  replaced_last i d old none s there alive e = record { at = λ r x. ground arith }
  replaced_last i d old (some r) s there alive e =
      let (g, same, born, kept, others) =
        get-replace session provider imports i d old r s faithful there e in
      IsReadLater-commit_if session provider imports (λ r'. i) IsAlive durable r _
        (row_of_get i r _ g) (kept ∙ alive)

  update_in-IsReadLater :
      (i : String) (p : ConnectionPatch) (s : S)
      → IsReadLater session provider imports
          (λ r. i)
          IsAlive
          durable
          (update_in sql_service actor i p work true s)
  unfolding update_in
  update_in-IsReadLater i p s =
      IsReadLater-bind session provider imports (λ r. i) IsAlive durable
        (get_connection sql_service actor i (some work)) _ s
        (λ old e.
          let (there, alive, same) = found_row i old s e in
          IsReadLater-bind session provider imports (λ r. i) IsAlive durable
            (prepare_update sql_service actor i p old) _ _
            (λ d e1.
              let still =
                prepare_silent i p old (get_connection sql_service actor i (some work) s).1
                ∙ same in
              IsReadLater-bind session provider imports (λ r. i) IsAlive durable
                (replace_record session provider imports i d) _ _
                (λ o e2. replaced_last i d old o _ (rw still there) alive e2)))

  -- records with a deletion mark
  abbrev IsMarked : ConnectionRecord → Type 0
  IsMarked r = is_some r.deleted_at ≡ true

  deleted_last :
      (i : String) (old : ConnectionRecord) (o : Option ConnectionRecord) (s : S)
      → (get_record session provider imports i s).0 ≡ ok (some old)
      → (delete_record session provider imports i s).0 ≡ ok o
      → IsReadLater session provider imports
          (λ r. i)
          IsMarked
          durable
          ((lift (require sql_service actor i o) >>= commit_if true work)
            (delete_record session provider imports i s).1)
  deleted_last i old none s there e = record { at = λ r x. ground arith }
  deleted_last i old (some r) s there e =
      let (g, marked, others) = get-delete session provider imports i old r s faithful there e in
      let m = ap (λ x. is_some x.deleted_at) marked in
      IsReadLater-commit_if session provider imports (λ r'. i) IsMarked durable r _
        (row_of_get i r _ g) m

  delete_in-IsReadLater :
      (i : String) (s : S)
      → IsReadLater session provider imports
          (λ r. i)
          IsMarked
          durable
          (delete_in sql_service actor i work true s)
  unfolding delete_in
  delete_in-IsReadLater i s =
      IsReadLater-bind session provider imports (λ r. i) IsMarked durable
        (get_connection sql_service actor i (some work)) _ s
        (λ old e.
          let (there, alive, same) = found_row i old s e in
          let s1 = (get_connection sql_service actor i (some work) s).1 in
          IsReadLater-bind session provider imports (λ r. i) IsMarked durable {A = Unit {0}}
            (lift (
              service.access_policy.can_delete (context sql_service actor "delete" (some i) none)
                old))
            _ s1
            (λ u e1.
              IsReadLater-bind session provider imports (λ r. i) IsMarked durable
                (delete_record session provider imports i) _ s1
                (λ o e2. deleted_last i old o s1 (rw same there) e2)))

  -- A connection whose creation returned is what a later call reads under its identifier, if the
  -- session is faithful and durable and the policy lets the actor read it.
  pub get_connection-create :
      (payload : ConnectionDraft) (r : ConnectionRecord) (s : S)
      → (create sql_service actor payload none s).0 ≡ ok r
      → MayRead session provider imports service actor r.id r
      → (get_connection sql_service actor r.id none (create sql_service actor payload none s).1).0
        ≡ ok r
  unfolding create use_uow
  get_connection-create payload r s h allowed =
      let (resolved, e1, t1) =
        bind_ok (lift (service.ownership_resolver.resolve_create _ payload)) _ s r h in
      let h1 = ap (λ x. x.0) (sym t1) ∙ h in
      let (u, e2, t2) =
        bind_ok {A = Unit {0}}
          (lift (run_can_create sql_service actor service.access_policy.can_create _ resolved)) _ s
          r h1 in
      let h2 = ap (λ x. x.0) (sym t2) ∙ h1 in
      let (v, e3, t3) = bind_ok (lift (validate service.registry resolved)) _ s r h2 in
      let h3 = ap (λ x. x.0) (sym t3) ∙ h2 in
      let (found, alive) =
        IsReadLater-managed session provider imports own_id IsAlive durable _ s
          (create_in-IsReadLater resolved v _) r h3 in
      let run = ap (λ x. x.1) (t1 ∙ t2 ∙ t3) in
      rw run (get_found session provider imports service actor r r.id _ durable found alive allowed)

  -- What an update returned is what a later call reads under the identifier, if the session is
  -- faithful and durable and the policy lets the actor read it.
  pub get_connection-update_connection :
      (i : String) (patch : ConnectionPatch) (r : ConnectionRecord) (s : S)
      → (update_connection sql_service actor i patch none s).0 ≡ ok r
      → MayRead session provider imports service actor i r
      → (get_connection sql_service actor i none
          (update_connection sql_service actor i patch none s).1).0
        ≡ ok r
  unfolding update_connection use_uow
  get_connection-update_connection i patch r s h allowed =
      let (found, alive) =
        IsReadLater-managed session provider imports (λ r'. i) IsAlive durable _ s
          (update_in-IsReadLater i patch _) r h in
      get_found session provider imports service actor r i _ durable found alive allowed

  -- After a deletion that returned, a later call does not find the connection, if the session is
  -- faithful and durable.
  pub get_connection-delete_connection :
      (i : String) (r : ConnectionRecord) (s : S)
      → (delete_connection sql_service actor i none s).0 ≡ ok r
      → (get_connection sql_service actor i none (delete_connection sql_service actor i none s).1).0
        ≡ err (connection_not_found i)
  unfolding delete_connection use_uow
  get_connection-delete_connection i r s h =
      let (found, marked) =
        IsReadLater-managed session provider imports (λ r'. i) IsMarked durable _ s
          (delete_in-IsReadLater i _) r h in
      get_marked session provider imports service actor r i _ durable found marked
