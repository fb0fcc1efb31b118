-- ===== src/Tests/Registering.antt =====
-- The registry's theorems at a registry with one type.
use db_connections.Domain.{KindSpec, TypeSpec, post_init}
use db_connections.Prelude.{String, [], false, refl, ◌≡◌}
use db_connections.Registry.{ConnectionRegistry, copy, get_kind, get_type}
use db_connections.Registry.Copy.{copy_lem}
use db_connections.Registry.Invariant.{IsWellFormed}
use db_connections.Result.{ok}
use db_connections.Tests.Data.{any_class, pg_type, registry}

abbrev pub http_kind : KindSpec
http_kind = record { name = "http"; description = "HTTP"; capabilities = [] }

abbrev pub mysql_type : TypeSpec
mysql_type = record pg_type { name = "mysql" }

registry-IsWellFormed : IsWellFormed registry
registry-IsWellFormed = record {
  kinds_keyed = (refl, refl, tt);
  types_keyed = (refl, refl, tt);
  kinds_known = (refl, tt);
}

copy_example :
    (r' : ConnectionRegistry) × (copy (any_class "none" false) registry ≡ ok r')
    × IsWellFormed r'
    × ((name : String) → get_kind name r' ≡ get_kind name registry)
    × ((name : String) → get_type name r' ≡ get_type name registry)
unfolding post_init
copy_example = copy_lem (any_class "none" false) registry registry-IsWellFormed (refl, tt)
