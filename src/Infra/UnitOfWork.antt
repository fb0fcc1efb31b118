-- ===== src/Infra/UnitOfWork.antt =====
-- infra/unit_of_work.py: the unit of work over a session, and that it is transactional.
use db_connections.Domain.{ConnectionDraft}
use db_connections.Exec.{Exec, finally, lift, pure, ◌>>=◌}
use db_connections.Exec.Preserves.{Preserves, Preserves-bind, Preserves-lift, Preserves-pure}
use db_connections.Infra.Encryption.{EncryptionProvider}
use db_connections.Infra.OptionsColumn.{Imports}
use db_connections.Infra.Repository.{
  create_record, delete_existing, delete_record, deleted_row, get_record, insert_and_fetch,
  list_records, new_row, replace_existing, replace_record, replaced_row, sql_repository,
  update_and_fetch,
}
use db_connections.Infra.Rows.{Row, columns_of}
use db_connections.Infra.Session.{IsIsolated, Session}
use db_connections.Prelude.{
  Bool, Option, String, arith, if◌then◌else◌, inl, inr, none, refl, some, ◌&&◌,
}
use db_connections.Result.{Result-cases, ok}
use db_connections.Service.{UnitOfWork}
use db_connections.Service.Steps.{IsTransactional}

-- `if exc is not None and self._session.in_transaction(): await self.rollback()`
abbrev pub rollback_if : {S : Type 0} → Session S → Bool → Exec S (Unit {0})
rollback_if session raised s =
    if raised && session.in_transaction s then session.rollback s else (ok tt, s)

-- `__aexit__`: the session is closed whatever the rollback does
unfoldable pub uow_exit : {S : Type 0} → Session S → Bool → Exec S (Unit {0})
unfolding finally
uow_exit session raised = finally (rollback_if session raised) session.close

-- `DefaultSQLModelConnectionUnitOfWorkFactory`: a unit of work over a session of its own
abbrev pub sql_uow : {S : Type 0} → Session S → EncryptionProvider → Imports → UnitOfWork S
sql_uow session provider imports = record {
  connections = sql_repository session provider imports;
  enter = session.open_session;
  commit = session.commit;
  exit = uow_exit session;
}

module _ {S V : Type 0} (committed : S → V) (session : Session S) (provider : EncryptionProvider)
    (imports : Imports) where
  insert_keeps :
      (row : Row)
      → IsIsolated committed session
      → Preserves committed (insert_and_fetch session provider imports row)
  unfolding insert_and_fetch
  insert_keeps row i = record {
    at = λ s. elim (Result-cases (session.insert_row row s).0) [
      | inl (u, e) ↦ let h = (i.insert_keeps row).at s in grind arith
      | inr (x, e) ↦ let h = (i.insert_keeps row).at s in grind arith
    ];
  }

  update_keeps :
      (j : String) (f : Row → Row)
      → IsIsolated committed session
      → Preserves committed (update_and_fetch session provider imports j f)
  unfolding update_and_fetch
  update_keeps j f i = record {
    at = λ s. elim (Result-cases (session.update_row j f s).0) [
      | inl (u, e) ↦ let h = (i.update_keeps j f).at s in grind arith
      | inr (x, e) ↦ let h = (i.update_keeps j f).at s in grind arith
    ];
  }

  create_keeps :
      (d : ConnectionDraft)
      → IsIsolated committed session
      → Preserves committed (create_record session provider imports d)
  unfolding create_record
  create_keeps d i = Preserves-bind committed session.now _ i.now_keeps (λ t.
      Preserves-bind committed session.uuid4 _ i.uuid4_keeps (λ j.
        Preserves-bind committed (lift (columns_of provider d)) _
          (Preserves-lift committed (columns_of provider d)) (λ c. insert_keeps (new_row j t c) i)))

  then_some :
      {A : Type 0} (m : Exec S A)
      → Preserves committed m
      → Preserves committed (m >>= λ r. pure (some r))
  then_some m h = Preserves-bind committed m _ h (λ r. Preserves-pure committed (some r))

  replace_keeps :
      (j : String) (d : ConnectionDraft)
      → IsIsolated committed session
      → Preserves committed (replace_existing session provider imports j d)
  unfolding replace_existing
  replace_keeps j d i =
      Preserves-bind committed (lift (columns_of provider d)) _
        (Preserves-lift committed (columns_of provider d))
        (λ c.
          Preserves-bind committed session.now _ i.now_keeps
            (λ t. then_some _ (update_keeps j (replaced_row t c) i)))

  delete_keeps :
      (j : String)
      → IsIsolated committed session
      → Preserves committed (delete_existing session provider imports j)
  unfolding delete_existing
  delete_keeps j i =
      Preserves-bind committed session.now _ i.now_keeps
        (λ t. then_some _ (update_keeps j (deleted_row t) i))

  exit_keeps :
      (raised : Bool) → IsIsolated committed session → Preserves committed (uow_exit session raised)
  unfolding uow_exit finally
  exit_keeps raised i = record {
    at = λ s.
        let a = i.close_keeps.at s in
        let b = i.close_keeps.at (session.rollback s).1 in
        let c = i.rollback_keeps.at s in ground arith;
  }

  -- `existing is None`, and otherwise
  when_there :
      {A : Type 0} (o : Option Row) (k : Exec S (Option A))
      → Preserves committed k
      → Preserves committed (elim o as (λ _. Exec S (Option A)) [ none ↦ pure none | some row ↦ k ])
  when_there {A = A} none k p = Preserves-pure {S = S} {V = V} {A = Option A} committed none
  when_there (some row) k p = p

  -- The unit of work is what the service relies on: if the session keeps to its transaction
  -- whatever is not committed, then no operation of the repository and neither the begin nor the
  -- end of the unit of work, with an exception or without, changes the committed state, and a
  -- commit that fails does not either.
  pub sql_uow-IsTransactional :
      IsIsolated committed session → IsTransactional committed (sql_uow session provider imports)
  unfolding create_record list_records get_record replace_record delete_record
  sql_uow-IsTransactional i = record {
    enter_keeps = i.open_keeps;
    exit_keeps = λ raised. exit_keeps raised i;
    create_keeps = λ d. create_keeps d i;
    list_keeps = λ q. record { at = λ s. refl };
    get_keeps = λ j. record { at = λ s. refl };
    replace_keeps = λ j d. record {
      at = λ s.
          (when_there (session.select_by_id j s) (replace_existing session provider imports j d)
              (replace_keeps j d i)).at
            s;
    };
    delete_keeps = λ j. record {
      at = λ s.
          (when_there (session.select_by_id j s) (delete_existing session provider imports j)
              (delete_keeps j i)).at
            s;
    };
    commit_atomic = i.commit_atomic;
  }
