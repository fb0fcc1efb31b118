-- ===== src/Dsl/Config.antt =====
-- dsl/loader.py: the models of a configuration, and its settings.
use db_connections.Int.{ℤ}
use db_connections.Prelude.{List, Option, String, none, some}

-- `DSLSettingsModel`
pub record DslSettings : Type 0 where
  pub max_connections : Option ℤ

-- `DSLKindSpecModel`
pub record DslKindSpec : Type 0 where
  pub name : String
  pub description : String
  pub capabilities : List String

-- `DSLDriverSpecModel`
pub record DslDriverSpec : Type 0 where
  pub name : String
  pub options_model : Option String
  pub public_options_model : Option String
  pub tags : List String

-- `DSLTypeSpecModel`
pub record DslTypeSpec : Type 0 where
  pub name : String
  pub kind : String
  pub properties_model : String
  pub secrets_model : Option String
  pub public_model : Option String
  pub connector_factory : Option String
  pub default_driver : Option String
  pub driver_specs : List DslDriverSpec
  pub supported_drivers : List String
  pub capabilities : List String
  pub tags : List String

-- `DSLPluginConfig`
pub record DslPluginConfig : Type 0 where
  pub name : String
  pub group : String

-- `DBConnectionDSLConfig`, with the lists of its `DSLRegistryModel`
pub record DbConnectionDslConfig : Type 0 where
  pub settings : DslSettings
  pub kinds : List DslKindSpec
  pub types : List DslTypeSpec
  pub plugins : List DslPluginConfig

-- what `apply_dsl_settings` makes of the setting: `None` is excluded from the update
unfoldable pub apply_dsl_settings : Option ℤ → DbConnectionDslConfig → Option ℤ
apply_dsl_settings max_connections config = elim config.settings.max_connections [
  | none ↦ max_connections
  | some n ↦ some n
]
