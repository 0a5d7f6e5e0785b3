-- ===== src/Model/Enums.antt =====
-- backend/app/models/enums.py, and `BatchStatus` of backend/app/models/batch.py.
use job_schedular.Prelude.{Bool, ℕ, ◌==◌}

pub data UserRole : Type 0 where
  admin member viewer : UserRole

pub data JobStatus : Type 0 where
  queued scheduled claimed running completed failed cancelled dead_letter : JobStatus

pub data RetryStrategy : Type 0 where
  fixed linear exponential : RetryStrategy

pub data WorkerStatus : Type 0 where
  alive draining dead : WorkerStatus

pub data ExecutionStatus : Type 0 where
  success failed timeout killed : ExecutionStatus

pub data BatchStatus : Type 0 where
  pending processing completed partially_failed failed cancelled : BatchStatus

-- Equality of the enumerations' values.
abbrev user_role_tag : UserRole → ℕ
user_role_tag admin = 0
user_role_tag member = 1
user_role_tag viewer = 2

abbrev job_status_tag : JobStatus → ℕ
job_status_tag queued = 0
job_status_tag scheduled = 1
job_status_tag claimed = 2
job_status_tag running = 3
job_status_tag completed = 4
job_status_tag failed = 5
job_status_tag cancelled = 6
job_status_tag dead_letter = 7

abbrev worker_status_tag : WorkerStatus → ℕ
worker_status_tag alive = 0
worker_status_tag draining = 1
worker_status_tag dead = 2

abbrev batch_status_tag : BatchStatus → ℕ
batch_status_tag pending = 0
batch_status_tag processing = 1
batch_status_tag completed = 2
batch_status_tag partially_failed = 3
batch_status_tag failed = 4
batch_status_tag cancelled = 5

abbrev pub is_role : UserRole → UserRole → Bool
is_role a b = user_role_tag a == user_role_tag b

abbrev pub is_status : JobStatus → JobStatus → Bool
is_status a b = job_status_tag a == job_status_tag b

abbrev pub is_worker_status : WorkerStatus → WorkerStatus → Bool
is_worker_status a b = worker_status_tag a == worker_status_tag b

abbrev pub is_batch_status : BatchStatus → BatchStatus → Bool
is_batch_status a b = batch_status_tag a == batch_status_tag b
