-- ===== src/Tests/Storage.antt =====
-- A session over a table in memory, for the tests: what is written shows in the session and is
-- saved by a commit, which fails while the table is locked.
use db_connections.Dict.{Dict, contains, get, values}
use db_connections.Errors.{Error, other_error}
use db_connections.Infra.Rows.{Row}
use db_connections.Infra.Session.{IsFaithful, IsIsolated, Session}
use db_connections.Prelude.{
  Bool, List, String, [], all, ap, arith, eq_iff, eq_refl, false, get_or, if◌then◌else◌, keep_if,
  map_option, refl, suc, true, ℕ, ◌==◌, ◌∷◌, ◌≡◌,
}
use db_connections.Result.{Result, err, ok}
use db_connections.System.Durable.{IsDurable}

pub record Table : Type 0 where
  pub rows : Dict Row
  pub saved : Dict Row
  pub clock : ℕ
  pub ids : List String
  pub is_locked : Bool

abbrev integrity_error : Error
integrity_error = other_error "IntegrityError" "duplicate key"

abbrev update_rows : String → (Row → Row) → Dict Row → Dict Row
update_rows i f [] = []
update_rows i f ((j, row) ∷ d) = (j, if i == j then f row else row) ∷ update_rows i f d

-- the first identifier that is left
abbrev next_id : List String → Table → Result String × Table
next_id [] s = (err (other_error "RuntimeError" "no identifiers are left"), s)
next_id (i ∷ is) s = (ok i, record s { ids = is })

abbrev pub table_session : Session Table
table_session = record {
  insert_row = λ row s.
      if contains row.id s.rows
      then (err integrity_error, s)
      else (ok tt, record s { rows = (row.id, row) ∷ s.rows });
  update_row = λ i f s. (ok tt, record s { rows = update_rows i f s.rows });
  select_by_id = λ i s. get i s.rows;
  select_where = λ p s. keep_if p (values s.rows);
  name_contains = λ n o. get_or o "" == n;
  now = λ s. (ok s.clock, record s { clock = suc s.clock });
  uuid4 = λ s. next_id s.ids s;
  open_session = λ s. record s { rows = s.saved };
  in_transaction = λ s. true;
  commit = λ s.
      if s.is_locked
      then (err (other_error "OperationalError" "database is locked"), s)
      else (ok tt, record s { saved = s.rows });
  rollback = λ s. (ok tt, record s { rows = s.saved });
  close = λ s. (ok tt, record s { rows = s.saved });
}

-- what other sessions read
abbrev pub saved_rows : Table → Dict Row
saved_rows s = s.saved

next_id-keeps : (is : List String) (s : Table) → (next_id is s).1.saved ≡ s.saved
next_id-keeps [] s = refl
next_id-keeps (i ∷ is) s = refl

next_id-keeps_rows : (is : List String) (s : Table) → (next_id is s).1.rows ≡ s.rows
next_id-keeps_rows [] s = refl
next_id-keeps_rows (i ∷ is) s = refl

pub table-IsIsolated : IsIsolated saved_rows table_session
table-IsIsolated = record {
  insert_keeps = λ row. record { at = λ s. ground arith };
  update_keeps = λ i f. record { at = λ s. refl };
  now_keeps = record { at = λ s. refl };
  uuid4_keeps = record { at = λ s. next_id-keeps s.ids s };
  open_keeps = λ s. refl;
  commit_atomic = record { at = λ s e x. ground arith };
  rollback_keeps = record { at = λ s. refl };
  close_keeps = record { at = λ s. refl };
}

get-update_rows :
    (i j : String) (f : Row → Row) (d : Dict Row)
    → get j (update_rows i f d) ≡ (if i == j then map_option f (get j d) else get j d)
get-update_rows i j f [] = ground arith
get-update_rows i j f ((k, row) ∷ d) = ground (arith, get-update_rows i j f d, eq_iff k j)

all-keep_if : (p : Row → Bool) (rows : List Row) → all p (keep_if p rows) ≡ true
all-keep_if p [] = refl
all-keep_if p (row ∷ rows) = ground (arith, all-keep_if p rows)

pub table-IsFaithful : IsFaithful table_session
table-IsFaithful = record {
  select-insert = λ row s x. let same = eq_refl row.id in ground arith;
  select-update = λ i j f s x. get-update_rows i j f s.rows;
  select-now = λ j. record { at = λ s. refl };
  select-uuid4 = λ j. record { at = λ s. ap (get j) (next_id-keeps_rows s.ids s) };
  select-where = λ p s. all-keep_if p (values s.rows);
}

pub table-IsDurable : IsDurable table_session
table-IsDurable = record {
  select-commit = λ j s x. ground arith;
  close_reader = λ s. refl;
  rollback_reader = λ s. refl;
  close_rolled_back = λ s. refl;
}

-- an empty table
abbrev pub empty_table : Table
empty_table = record { rows = []; saved = []; clock = 7; ids = "c1" ∷ "c2" ∷ []; is_locked = false }
