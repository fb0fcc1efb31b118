-- ===== src/Infra.antt =====
-- infra/ and runtime/encryption.py: the SQL storage of connections.
pub mod Encryption
pub mod OptionsColumn
pub mod Rows
pub mod Mapper
pub mod Session
pub mod Repository
pub mod UnitOfWork
