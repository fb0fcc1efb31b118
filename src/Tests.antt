-- ===== src/Tests.antt =====
-- Tests: the theorems at concrete inputs.
pub mod Data
pub mod Storage
pub mod Registering
pub mod Validating
pub mod Storing
pub mod Serving
pub mod Connecting
pub mod Reaching
pub mod Mapping
pub mod Listing
pub mod Seeing
pub mod Answering
pub mod Building
pub mod Compatible
pub mod Routing
pub mod Loading
pub mod Checks
