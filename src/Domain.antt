-- ===== src/Domain.antt =====
-- domain/: connection entities, driver and type specifications (domain/drivers.py, domain/specs.py,
-- domain/entities/). A pydantic class is known by its reference, by whether it derives from
-- `DriverOptionsBase`, and by its `model_validate`, which is whatever function the registration
-- gave; an instance is known by its class and its two dumps.
mod Entities
mod Specs
mod Patch
mod Record
unfoldable pub use Entities.*
unfoldable pub use Specs.*
unfoldable pub use Patch.*
unfoldable pub use Record.*
