-- ===== src/Engine.antt =====
-- worker/app/engine: what a worker process runs.
pub mod Retry
pub mod RateLimiter
pub mod Claimer
pub mod Runner
pub mod Daemon
pub mod SideEffects
pub mod Diagnosis
pub mod Registry
