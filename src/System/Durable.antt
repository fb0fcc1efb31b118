-- ===== src/System/Durable.antt =====
-- A later call reads what an earlier one committed, each in a session of its own.
use db_connections.Domain.{ConnectionRecord}
use db_connections.Errors.{connection_not_found}
use db_connections.Exec.{Exec, ended, finally, ◌>>=◌}
use db_connections.Infra.Encryption.{EncryptionProvider}
use db_connections.Infra.Mapper.{to_record}
use db_connections.Infra.OptionsColumn.{Imports}
use db_connections.Infra.Repository.{get_record}
use db_connections.Infra.Session.{Session}
use db_connections.Infra.UnitOfWork.{sql_uow, uow_exit}
use db_connections.Prelude.{
  Bool, Bool-cases, String, arith, false, inl, inr, is_some, map_option, none, refl, some, true,
  ◌&&◌, ◌≡◌,
}
use db_connections.Result.{Result, Result-cases, err, is_err, ok}
use db_connections.Service.{
  ConnectionService, UnitOfWork, commit_if, found_record, get_connection, get_in, managed, use_uow,
}
use db_connections.Value.{Value}

-- What is relied on of a commit: a session that is opened after it reads what the committing session
-- read, even if closing that one raised. A session that has only read ends without an exception.
pub record IsDurable {S : Type 0} (session : Session S) : Type 0 where
  pub select-commit :
      (j : String) (s : S)
      → (session.commit s).0 ≡ ok tt
      → session.select_by_id j (session.open_session (session.close (session.commit s).1).1)
        ≡ session.select_by_id j s
  pub close_reader : (s : S) → (session.close (session.open_session s)).0 ≡ ok tt
  pub rollback_reader : (s : S) → (session.rollback (session.open_session s)).0 ≡ ok tt
  pub close_rolled_back :
      (s : S) → (session.close (session.rollback (session.open_session s)).1).0 ≡ ok tt

module _ {S A B : Type 0} where
  -- what a run that returned passed through
  pub bind_ok :
      (m : Exec S A) (f : A → Exec S B) (s : S) (b : B)
      → ((m >>= f) s).0 ≡ ok b
      → (a : A) × ((m s).0 ≡ ok a) × ((m >>= f) s ≡ f a (m s).1)
  bind_ok m f s b h = elim (Result-cases (m s).0) [
    | inl (a, e) ↦ (a, e, ground arith)
    | inr (x, e) ↦ ground arith
  ]

module _ {S : Type 0} (session : Session S) (provider : EncryptionProvider)
    (imports : Imports) where
  abbrev pub uow : UnitOfWork S
  uow = sql_uow session provider imports

  -- a result that was committed, and what a new session reads after
  committed :
      {A : Type 0} (a b : A) (s : S)
      → IsDurable session
      → (commit_if true uow a s).0 ≡ ok b
      → (a ≡ b)
        × ((j : String)
            → session.select_by_id j
                (session.open_session (session.close (commit_if true uow a s).1).1)
              ≡ session.select_by_id j s)
  unfolding commit_if
  committed a b s d h = elim (Result-cases (session.commit s).0) [
    | inl (u, e) ↦ (ground arith, λ j. let k = d.select-commit j s in ground arith)
    | inr (x, e) ↦ ground arith
  ]

  -- a session that has only read ends without an exception
  quiet_end :
      IsDurable session
      → (raised : Bool) (s : S) → (uow_exit session raised (session.open_session s)).0 ≡ ok tt
  unfolding uow_exit finally
  quiet_end d raised s =
      elim (Bool-cases (raised && session.in_transaction (session.open_session s))) [
        | inl x ↦ rw (x, d.rollback_reader s, d.close_rolled_back s) refl
        | inr x ↦ rw (x, d.close_reader s) refl
      ]

  ended_ok :
      {A : Type 0} (r : Result A) (x : Result (Unit {0})) (a : A) → ended r x ≡ ok a → r ≡ ok a
  ended_ok r (ok u) a h = h
  ended_ok r (err e) a h = ground arith

  module _ (service : ConnectionService S) (actor : Value) where
    -- the service with units of work of this kind
    abbrev pub over_sql : ConnectionService S
    over_sql = record service { uow_factory = uow }

    abbrev pub MayRead : String → ConnectionRecord → Type 0
    MayRead i r =
        service.access_policy.can_get_one
          (record { actor = actor; operation = "get"; connection_id = some i; payload = none }) r
        ≡ ok tt

    -- a row that a new session reads is found
    pub get_found :
        (r : ConnectionRecord) (i : String) (s : S)
        → IsDurable session
        → map_option (to_record provider imports) (session.select_by_id i (session.open_session s))
          ≡ some r
        → r.deleted_at ≡ none
        → MayRead i r
        → (get_connection over_sql actor i none s).0 ≡ ok r
    unfolding get_connection use_uow managed get_in get_record found_record
    get_found r i s durable h d p = simp (h, d, p, quiet_end durable false s)

    -- a row that a new session reads with its deletion mark is not found
    pub get_marked :
        (r : ConnectionRecord) (i : String) (s : S)
        → IsDurable session
        → map_option (to_record provider imports) (session.select_by_id i (session.open_session s))
          ≡ some r
        → is_some r.deleted_at ≡ true
        → (get_connection over_sql actor i none s).0 ≡ err (connection_not_found i)
    unfolding get_connection use_uow managed get_in get_record found_record
    get_marked r i s durable h d = rw (h, d, quiet_end durable true s)

  module _ (key : ConnectionRecord → String) (Q : ConnectionRecord → Type 0)
      (durable : IsDurable session) where
    -- a run whose result is what a session that is opened later reads under its key
    pub record IsReadLater (run : Result ConnectionRecord × S) : Type 0 where
      pub at :
          (r : ConnectionRecord)
          → run.0 ≡ ok r
          → (map_option
                (to_record provider imports)
                (session.select_by_id (key r) (session.open_session (session.close run.1).1))
              ≡ some r)
            × Q r

    pub IsReadLater-bind :
        {A : Type 0} (m : Exec S A) (f : A → Exec S ConnectionRecord) (s : S)
        → ((a : A) → (m s).0 ≡ ok a → IsReadLater (f a (m s).1))
        → IsReadLater ((m >>= f) s)
    IsReadLater-bind m f s h = record {
      at = λ r x.
          let (a, e, t) = bind_ok m f s r x in
          let later = (h a e).at r (rw (← t) x) in (rw t later.0, later.1);
    }

    -- a block that reads back what it wrote, and then its commit
    pub IsReadLater-commit_if :
        (a : ConnectionRecord) (s : S)
        → map_option (to_record provider imports) (session.select_by_id (key a) s) ≡ some a
        → Q a
        → IsReadLater (commit_if true uow a s)
    IsReadLater-commit_if a s back q = record {
      at = λ r x.
          let (same, kept) = committed a r s durable x in
          let k = kept (key a) in rw (← same) (rw k back, q);
    }

    -- a block under its unit of work
    pub IsReadLater-managed :
        (body : UnitOfWork S → Bool → Exec S ConnectionRecord) (s : S)
        → IsReadLater (body uow true (session.open_session s))
        → (r : ConnectionRecord) → (managed uow body s).0 ≡ ok r
        → (map_option
              (to_record provider imports)
              (session.select_by_id (key r) (session.open_session (managed uow body s).1))
            ≡ some r)
          × Q r
    unfolding managed uow_exit finally
    IsReadLater-managed body s h r x =
        let opened = session.open_session s in
        let (y, s') = body uow true opened in
        let returned : y ≡ ok r = ended_ok y (uow_exit session (is_err y) s').0 r x in
        let l = h.at r returned in (simp (returned, l.0), l.1)
