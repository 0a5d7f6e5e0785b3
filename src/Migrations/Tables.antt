-- ===== src/Migrations/Tables.antt =====
-- The tables as the revisions in alembic/versions create them.
pub mod Tenants
pub mod Queues
pub mod Workers
pub mod Jobs
pub mod Later
pub mod Indexes
