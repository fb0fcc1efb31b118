-- ===== src/Dsl/Applying.antt =====
-- dsl/loader.py: registering what a configuration declares.
use db_connections.Domain.{ModelClass}
use db_connections.Dsl.Config.{DbConnectionDslConfig, DslKindSpec, DslTypeSpec}
use db_connections.Dsl.References.{Importer}
use db_connections.Dsl.Specs.{build_kind_spec, build_type_spec}
use db_connections.Exec.{Exec, lift, pure, ◌>>=◌}
use db_connections.Prelude.{List, [], false, ◌∷◌}
use db_connections.Registry.{ConnectionRegistry, register_kind, register_type}
use db_connections.Result.{Result, err, ok}

abbrev pub settled :
    Result ConnectionRegistry → ConnectionRegistry → Result (Unit {0}) × ConnectionRegistry
settled (ok r') r = (ok tt, r')
settled (err e) r = (err e, r)

-- a registration changes the registry in place, or raises and leaves it as it is
abbrev pub in_place :
    (ConnectionRegistry → Result ConnectionRegistry) → Exec ConnectionRegistry (Unit {0})
in_place f r = settled (f r) r

-- the first loop of `apply_dsl_registry`
unfoldable pub apply_kinds : List DslKindSpec → Exec ConnectionRegistry (Unit {0})
apply_kinds [] = pure tt
apply_kinds (k ∷ ks) = in_place (register_kind (build_kind_spec k) false) >>= λ u. apply_kinds ks

module _ (importer : Importer) (no_driver_options : ModelClass) where
  -- the second
  unfoldable pub apply_types : List DslTypeSpec → Exec ConnectionRegistry (Unit {0})
  apply_types [] = pure tt
  apply_types (t ∷ ts) = lift (build_type_spec importer no_driver_options t) >>= λ spec.
      in_place (register_type spec false) >>= λ u. apply_types ts

  -- `apply_dsl_registry`
  unfoldable pub apply_dsl_registry : DbConnectionDslConfig → Exec ConnectionRegistry (Unit {0})
  apply_dsl_registry config = apply_kinds config.kinds >>= λ u. apply_types config.types
