-- ===== src/System/Rows.antt =====
-- What every operation does to the rows of `jobs`: the changes of a row that the program's
-- statements make, gathered as what a property of rows has to survive. The children prove that
-- a property that survives them is kept by each operation.
pub mod Engine
pub mod Daemons
pub mod Services
pub mod Batches
use job_schedular.Prelude.{ℕ, String, Bool, true, Option, List, ◌≡◌, if◌then◌else◌}
use job_schedular.Model.{Uuid, Time, Json, Message, Job, JobStatus, is_status, new_job}
use job_schedular.Engine.Claimer.{Poll, claim_row, revert_row}
use job_schedular.Engine.Runner.{complete_row, retry_row, bury_row, unlock_row, cancel_child_row}
use job_schedular.Daemons.Heartbeat.{renew_row}
use job_schedular.Daemons.Reaper.{requeue_row, escalate_row}
use job_schedular.Daemons.Promoter.{promote_row}
use job_schedular.Services.Jobs.{cancel_row, requeue_by_hand}
use job_schedular.Services.Batches.{batch_cancel_row, batch_retry_row}
use job_schedular.Services.Dlq.{replay_row}
use job_schedular.Services.Queues.{orphan_row, unbatch_row}

-- The row changes of the program, and the rows that it inserts. A lease is renewed, and a job
-- completed, only where the row is running.
pub record IsKept (Allowed : Uuid → Bool) (P : Job → Type 0) : Type 0 where
  pub at_insert :
      (id q : Uuid) (key : Option String) (name : String) (later : Bool) (priority : ℕ)
      (payload : Json) (max_retries : ℕ) (run_at : Time) (parent batch : Option Uuid)
      (tags : List String) (now : Time)
      → P (
          new_job id q key name
            (if later then JobStatus.scheduled else JobStatus.queued)
            priority
            payload
            max_retries
            run_at
            parent
            batch
            tags
            now)
  pub at_claim :
      (p : Poll) (q : Uuid) (j : Job) → Allowed (p.new_token q) ≡ true → P j → P (claim_row p q j)
  pub at_revert : (now : Time) (j : Job) → P j → P (revert_row now j)
  pub at_complete :
      (r : Json) (now : Time) (j : Job)
      → is_status j.status JobStatus.running ≡ true
      → P j
      → P (complete_row r now j)
  pub at_retry :
      (later : Bool) (at : Time) (m : Option Message) (now : Time) (j : Job)
      → P j
      → P (retry_row later at m now j)
  pub at_bury : (m : Option Message) (now : Time) (j : Job) → P j → P (bury_row m now j)
  pub at_unlock : (now : Time) (j : Job) → P j → P (unlock_row now j)
  pub at_cancel_child :
      (parent : Uuid) (now : Time) (j : Job) → P j → P (cancel_child_row parent now j)
  pub at_renew :
      (now : Time) (j : Job)
      → is_status j.status JobStatus.running ≡ true
      → P j
      → P (renew_row now j)
  pub at_requeue : (now : Time) (j : Job) → P j → P (requeue_row now j)
  pub at_escalate : (now : Time) (j : Job) → P j → P (escalate_row now j)
  pub at_promote : (now : Time) (j : Job) → P j → P (promote_row now j)
  pub at_cancel : (read : Job) (now : Time) (j : Job) → P j → P (cancel_row read now j)
  pub at_requeue_by_hand :
      (read : Job) (now : Time) (j : Job) → P j → P (requeue_by_hand read now j)
  pub at_replay : (now : Time) (j : Job) → P j → P (replay_row now j)
  pub at_batch_cancel : (now : Time) (j : Job) → P j → P (batch_cancel_row now j)
  pub at_orphan : (j : Job) → P j → P (orphan_row j)
  pub at_unbatch : (j : Job) → P j → P (unbatch_row j)
  pub at_batch_retry : (now : Time) (j : Job) → P j → P (batch_retry_row now j)
