-- ===== src/Compat/Manager.antt =====
-- compat/manager.py: the limit on the number of connections, with its cached count. What the
-- database counts is an argument.
use db_connections.Int.{at_least, ℤ}
use db_connections.Prelude.{Bool, Option, arith, none, not, some, suc, true, zero, ℕ, ◌≡◌}

-- the attributes `MAX_CONNECTIONS` and `ACTIVE_CONNECTIONS` of a `ConnectionManager`
pub record ConnectionManager : Type 0 where
  pub max_connections : Option ℤ
  pub active_connections : Option ℕ

-- `__init__`
abbrev pub new_manager : Option ℤ → ConnectionManager
new_manager max_connections = record {
  max_connections = max_connections;
  active_connections = none;
}

-- `get_active_connections`: a count that is `None` or 0 is taken again
unfoldable pub get_active_connections : ℕ → ConnectionManager → ℕ × ConnectionManager
get_active_connections counted manager = elim manager.active_connections [
  | none ↦ (counted, record manager { active_connections = some counted })
  | some zero ↦ (counted, record manager { active_connections = some counted })
  | some (suc n) ↦ (suc n, manager)
]

-- `validate_max_connections`: `MAX_CONNECTIONS > ACTIVE_CONNECTIONS`
unfoldable pub validate_max_connections : ℕ → ConnectionManager → Bool × ConnectionManager
validate_max_connections counted manager =
    let (active, manager') = get_active_connections counted manager in
    (
      elim manager.max_connections [ none ↦ true | some limit ↦ not (at_least active limit) ],
      manager',
    )

-- Once a count that is not 0 was taken, the answer does not depend on how many connections there
-- are: connections that are created later are never counted.
pub stale_count :
    (n counted later : ℕ) (manager : ConnectionManager)
    → manager.active_connections ≡ some (suc n)
    → validate_max_connections counted manager ≡ validate_max_connections later manager
unfolding validate_max_connections get_active_connections
stale_count n counted later manager h = ground arith
