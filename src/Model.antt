-- ===== src/Model.antt =====
-- The database: the enumerations, the values, the tables and the rows that the program inserts.
pub mod Enums
pub mod Values
pub mod Tenants
pub mod Tables
pub use Enums.{
  UserRole, JobStatus, RetryStrategy, WorkerStatus, ExecutionStatus, BatchStatus, is_role,
  is_status, is_worker_status, is_batch_status,
}
pub use Values.{
  Uuid, Time, Json, seconds, Message, plain, parent_failed, exhausted_attempts,
  expired_after_attempts,
}
pub use Tenants.{User, Organization, Project, ProjectApiKey}
pub use Tables.{
  RetryPolicy, Queue, Job, JobExecution, DlqEntry, Worker, WorkerHeartbeat, ScheduledJob, JobBatch,
  IdempotencyRecord, Db, empty_db,
}
unfoldable pub use Tables.{new_job}
