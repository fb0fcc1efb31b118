-- ===== src/Infra/Session.antt =====
-- The database session (SQLAlchemy) as the repository uses it, with what is documented of it: a
-- session reads its own writes, other sessions read what was committed, and a row that is inserted
-- or updated is the row that a later select by its key returns.
use db_connections.Domain.{Time}
use db_connections.Exec.{Exec}
use db_connections.Exec.Preserves.{IsAtomic, Preserves}
use db_connections.Infra.Rows.{Row}
use db_connections.Prelude.{
  Bool, List, Option, String, all, if◌then◌else◌, keep_if, map_option, some, true, ◌==◌, ◌≡◌,
}
use db_connections.Result.{ok}

-- `S` is the state of a session and of the database behind it
pub record Session (S : Type 0) : Type 0 where
  -- `exec(insert(table).values(...))` and `flush`, which may raise
  pub insert_row : Row → Exec S (Unit {0})
  -- `exec(update(table).where(id == ...).values(...))` and `flush`
  pub update_row : String → (Row → Row) → Exec S (Unit {0})
  -- `execute(select(...).where(id == ...)).mappings().first()`
  pub select_by_id : String → S → Option Row
  -- `execute(select(...).where(...)).mappings().all()`
  pub select_where : (Row → Bool) → S → List Row
  -- `table.c.name.contains(s)`
  pub name_contains : String → Option String → Bool
  -- `datetime.now(UTC)` and `str(uuid4())`
  pub now : Exec S Time
  pub uuid4 : Exec S String
  -- a new session, and its end, which may raise like a commit and a rollback
  pub open_session : S → S
  pub in_transaction : S → Bool
  pub commit : Exec S (Unit {0})
  pub rollback : Exec S (Unit {0})
  pub close : Exec S (Unit {0})

-- What is relied on of transactions. `committed` is what other sessions read.
pub record IsIsolated {S V : Type 0} (committed : S → V) (session : Session S) : Type 0 where
  pub insert_keeps : (row : Row) → Preserves committed (session.insert_row row)
  pub update_keeps : (i : String) (f : Row → Row) → Preserves committed (session.update_row i f)
  pub now_keeps : Preserves committed session.now
  pub uuid4_keeps : Preserves committed session.uuid4
  pub open_keeps : (s : S) → committed (session.open_session s) ≡ committed s
  pub commit_atomic : IsAtomic committed session.commit
  pub rollback_keeps : Preserves committed session.rollback
  pub close_keeps : Preserves committed session.close

-- What is relied on of statements, where they do not raise.
pub record IsFaithful {S : Type 0} (session : Session S) : Type 0 where
  pub select-insert :
      (row : Row) (s : S)
      → (session.insert_row row s).0 ≡ ok tt
      → session.select_by_id row.id (session.insert_row row s).1 ≡ some row
  pub select-update :
      (i j : String) (f : Row → Row) (s : S)
      → (session.update_row i f s).0 ≡ ok tt
      → session.select_by_id j (session.update_row i f s).1
        ≡ (if i == j then map_option f (session.select_by_id j s) else session.select_by_id j s)
  pub select-now : (j : String) → Preserves (session.select_by_id j) session.now
  pub select-uuid4 : (j : String) → Preserves (session.select_by_id j) session.uuid4
  pub select-where : (p : Row → Bool) (s : S) → all p (session.select_where p s) ≡ true

-- A select returns the rows of the table that meet its condition, all of them and in its order.
pub record IsSelecting {S : Type 0} (table : S → List Row) (session : Session S) : Type 0 where
  pub select-where : (p : Row → Bool) (s : S) → session.select_where p s ≡ keep_if p (table s)
