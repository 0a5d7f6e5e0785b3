-- ===== src/System/Preserve.antt =====
-- Every step keeps what every row change keeps.
use job_schedular.Prelude.{Bool, All}
use job_schedular.Model.{Uuid, Job, Db}
use job_schedular.System.{
  Step, claims, finishes, beats, reaps, promotes, dispatches, creates, creates_many, cancels,
  retries, creates_batch, cancels_batch, retries_batch, replays, replays_all, deletes_queue, others,
  Reach, here, next,
}
use job_schedular.System.Rows.{IsKept}
use job_schedular.System.Rows.Engine.{claim_next_job-rows, finalize-rows}
use job_schedular.System.Rows.Daemons.{
  record_heartbeat-rows, reap_jobs-rows, promote_due_jobs-rows, dispatch_due_schedules-rows,
}
use job_schedular.System.Rows.Services.{
  create_job-rows, create_jobs_batch-rows, cancel_job-rows, retry_job-rows,
}
use job_schedular.System.Rows.Batches.{
  create_batch-rows, cancel_batch-rows, retry_batch-rows, replay_dlq_entry-rows,
  replay_all_dlq_entries-rows, delete_queue-rows,
}

module _ {Allowed : Uuid → Bool} {P : Job → Type 0} (kept : IsKept Allowed P) where
  pub Step-All : {d e : Db} → Step Allowed d e → All P d.jobs → All P e.jobs
  Step-All (claims p only db bs drawn) h = claim_next_job-rows kept p drawn only db bs h
  Step-All (finishes fl c o e db db' ex q) h = finalize-rows kept fl c o e db db' ex q h
  Step-All (beats w a now cpu mem db) h = record_heartbeat-rows kept w a now cpu mem db h
  Step-All (reaps now new_id read db) h = reap_jobs-rows kept now new_id read db h
  Step-All (promotes o now size locked db) h = promote_due_jobs-rows kept o now size locked db h
  Step-All (dispatches f k t o now locked new_id db) h =
      dispatch_due_schedules-rows kept f k t o now locked new_id db h
  Step-All (creates u q req hd id now read db db' j e) h =
      create_job-rows kept u q req hd id now read db db' j e h
  Step-All (creates_many u q items new_id now db db' js e) h =
      create_jobs_batch-rows kept u q items new_id now db db' js e h
  Step-All (cancels u id now read db db' e) h = cancel_job-rows kept u id now read db db' e h
  Step-All (retries u id now read db db' e) h = retry_job-rows kept u id now read db db' e h
  Step-All (creates_batch u q req id new_id now db db' b e) h =
      create_batch-rows kept u q req id new_id now db db' b e h
  Step-All (cancels_batch u id now db db' b e) h = cancel_batch-rows kept u id now db db' b e h
  Step-All (retries_batch u id now db db' b e) h = retry_batch-rows kept u id now db db' b e h
  Step-All (replays u id now db db' ids e) h = replay_dlq_entry-rows kept u id now db db' ids e h
  Step-All (replays_all u q now db) h = replay_all_dlq_entries-rows kept u q now db h
  Step-All (deletes_queue u q db db' e) h = delete_queue-rows kept u q db db' e h
  Step-All (others db db' same) h = rw same h

  pub Reach-All : {d e : Db} → All P d.jobs → Reach Allowed d e → All P e.jobs
  Reach-All h here = h
  Reach-All h (next r st) = Step-All st (Reach-All h r)
