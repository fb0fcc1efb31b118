-- ===== src/Connectors.antt =====
-- connectors/: the connectors that the library ships.
pub mod Texts
pub mod Stripping
pub mod Ftp
pub mod Kafka
pub mod S3
pub mod Sftp
pub mod Sql
