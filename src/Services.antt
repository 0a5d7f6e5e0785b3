-- ===== src/Services.antt =====
-- backend/app/services: what the REST handlers call. An `err` is the HTTP error that is raised;
-- the session is then rolled back (core/database.py), so it comes without a database.
pub mod Access
pub mod Jobs
pub mod Batches
pub mod Dlq
pub mod Queues
pub mod Schedules
pub mod Figures
pub mod Listings
pub mod Telemetry
pub mod Slugs
pub mod Isolation
pub mod Projects
pub mod Tokens
pub mod Accounts
