-- ===== src/Dsl.antt =====
-- dsl/loader.py: a configuration of kinds and types, and what it registers.
pub mod Config
pub mod Loading
pub mod References
pub mod Specs
pub mod Applying
pub mod Invariant
pub mod Completeness
