-- ===== src/System.antt =====
-- The service (application/service.py) over the SQL unit of work (infra/): what one call writes, a
-- later call reads.
pub mod Answers
pub mod Durable
pub mod Visible
