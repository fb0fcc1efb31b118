-- ===== src/Service.antt =====
-- application/: the access policy, the ownership resolver and the unit of work that the service is
-- given (policies.py, ownership.py, uow.py, domain/repositories.py), and `ConnectionService`
-- (service.py), whose operations stand in the modules below.
mod Ports
mod Helpers
mod Operations
pub mod Steps
pub mod Transactions
pub mod Merging
pub mod Repair
unfoldable pub use Ports.*
unfoldable pub use Helpers.*
unfoldable pub use Operations.*
