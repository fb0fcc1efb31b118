-- ===== src/Compat/Orm.antt =====
-- The session of SQLModel that the routes of compat/routes.py write and read through, given by its
-- calls.
-- `S` is the state of a session with the database behind it
use db_connections.Compat.Statements.{Clause, TableRow, meets}
use db_connections.Exec.{Exec}
use db_connections.Prelude.{List, Option, find_first, keep_if, ◌≡◌}
use db_connections.Result.{ok}
use db_connections.Value.{Value}

pub record OrmSession (S : Type 0) : Type 0 where
  -- `session.exec(select(Model).where(...)).first()` and `.all()`
  pub first : List Clause → Exec S (Option TableRow)
  pub all_rows : List Clause → Exec S (List TableRow)
  pub add_row : TableRow → Exec S (Unit {0})
  pub commit : Exec S (Unit {0})
  -- `session.refresh(row)`: the row as it is stored
  pub refresh : TableRow → Exec S TableRow
  -- `datetime.now()`
  pub now : Exec S Value

-- what is relied on of `select`: it reads the rows that meet every clause, and writes nothing
pub record IsReading {S : Type 0} (rows : S → List TableRow) (session : OrmSession S) : Type 0 where
  pub first_meets :
      (clauses : List Clause) (s : S)
      → session.first clauses s ≡ (ok (find_first (meets clauses) (rows s)), s)
  pub all_meet :
      (clauses : List Clause) (s : S)
      → session.all_rows clauses s ≡ (ok (keep_if (meets clauses) (rows s)), s)
