-- ===== src/Compat.antt =====
-- compat/: the layer that keeps the names and the storage of the first version of the library.
pub mod Encryption
pub mod Urls
pub mod Bridge
pub mod Manager
pub mod Connectors
pub mod Properties
pub mod FtpProperties
pub mod Columns
pub mod Statements
pub mod Orm
pub mod RowModel
pub mod Router
pub mod Routes
