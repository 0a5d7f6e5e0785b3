-- ===== src/Examples/System.antt =====
-- The theorems on the daemons, the batches and the whole system, at concrete inputs.
use job_schedular.Prelude.{
  any_where, zero, ◌+◌, ◌<◌, true, false, none, [], ◌∷◌, ◌≡◌, ◌↔◌, refl, arith, All, update_where,
  count_where,
}
use job_schedular.Model.{Uuid, BatchStatus, Db, JobExecution, ExecutionStatus, new_job}
use job_schedular.Engine.Claimer.{claim_row, claim_next_job}
use job_schedular.Engine.Runner.{
  returned, raised, finished, finalize, finalize_success, execution_row, complete_row, unlock_row,
}
use job_schedular.Daemons.Reaper.{is_expired, reap_expired_leases, reap_job}
use job_schedular.Daemons.Reaper.Recovery.{sweep_recovers}
use job_schedular.Services.Batches.{settle}
use job_schedular.Services.Batches.Progress.{batch_status_exact}
use job_schedular.System.{claims, Reach, here, next}
use job_schedular.System.Fencing.{
  other_than, IsFenced, stale_worker-IsFenced, settles_once, reap_job-IsLost,
}
use job_schedular.System.Outcomes.{IsCoherent, rows-AreCoherent}
use job_schedular.Examples.Numbers.{whole_numbers}
use job_schedular.Examples.Data.{queued, running, batch, with_jobs, poll, worker_on, ending}

-- a job whose lease ended at 130, and one that is still leased
abbrev expired_db : Db
expired_db = with_jobs (running 1 2 500 130 ∷ running 2 3 501 900 ∷ [])

sweep_recovers_example :
    All
      (λ j. is_expired 200 j ≡ false)
      (reap_expired_leases 200 (λ i. i) expired_db expired_db).1.jobs
sweep_recovers_example = sweep_recovers 200 (λ i. i) expired_db

abbrev after_sweep : Db
after_sweep = reap_job 200 (λ i. i) (running 1 2 500 130) expired_db

-- The swept job is claimed again under the token 530, while its first worker still runs it.
reclaimed : Reach (other_than 500) after_sweep (claim_next_job poll none after_sweep []).1
reclaimed = next here (claims poll none after_sweep [] fresh)
  where
    fresh : (q : Uuid) → other_than 500 (poll.new_token q) ≡ true
    fresh q = ground arith

stale_worker-IsFenced_example :
    IsFenced
      (worker_on (running 1 2 500 130) 500).job.id
      (claim_next_job poll none after_sweep []).1
      (finalize whole_numbers
        (worker_on (running 1 2 500 130) 500)
        (returned "ok")
        ending
        (claim_next_job poll none after_sweep []).1)
stale_worker-IsFenced_example =
    stale_worker-IsFenced whole_numbers 500 (worker_on (running 1 2 500 130) 500) (returned "ok")
      ending after_sweep (claim_next_job poll none after_sweep []).1 refl
      (reap_job-IsLost 500 200 (λ i. i) (running 1 2 500 130) expired_db) reclaimed

-- A worker settles its job, and tries again under the same token.
abbrev one_running : Db
one_running = with_jobs (running 1 2 500 130 ∷ [])

abbrev success_row : JobExecution
success_row =
    execution_row (worker_on (running 1 2 500 130) 500) ExecutionStatus.success none none ending

abbrev one_completed : Db
one_completed = record one_running {
  jobs = complete_row "ok" 200 (running 1 2 500 130) ∷ [];
  executions = success_row ∷ [];
}

completes :
    finalize whole_numbers (worker_on (running 1 2 500 130) 500) (returned "ok") ending one_running
    ≡ finished success_row one_completed
unfolding finalize finalize_success execution_row complete_row unlock_row count_where update_where
    any_where new_job
completes = refl

settles_once_example : IsFenced (worker_on (running 1 2 500 130) 500).job.id one_completed (
    finalize whole_numbers
      (worker_on (running 1 2 500 130) 500)
      (raised "late" "")
      ending
      one_completed)
settles_once_example =
    settles_once whole_numbers 500 (worker_on (running 1 2 500 130) 500)
      (worker_on (running 1 2 500 130) 500) (returned "ok") (raised "late" "") ending ending
      one_running one_completed one_completed success_row refl refl refl completes here

-- one job that has been completed, and one that is ready
abbrev half_done : Db
half_done = with_jobs (complete_row "ok" 150 (claim_row poll 30 (queued 2 10)) ∷ queued 1 10 ∷ [])

half_done-AreCoherent : All IsCoherent half_done.jobs
unfolding new_job complete_row claim_row
half_done-AreCoherent = (
  ((λ run. cc run), (λ end. (omega arith, refl, refl, refl, refl, refl, refl))),
  (((λ run. cc run), (λ end. cc end)), tt),
)

rows-AreCoherent_example : All IsCoherent (claim_next_job poll none half_done []).1.jobs
rows-AreCoherent_example =
    rows-AreCoherent (λ u. true) half_done (claim_next_job poll none half_done []).1
      half_done-AreCoherent (next here (claims poll none half_done [] (λ q. refl)))

-- three jobs, of which two are completed and one has failed
batch_status_exact_example :
    (((settle 2 1 0 9 (batch 3)).status ≡ BatchStatus.processing) ↔ (2 + 1 + 0 < 3))
    × (((settle 2 1 0 9 (batch 3)).status ≡ BatchStatus.completed) ↔ (2 ≡ (batch 3).total_jobs))
    × (((settle 2 1 0 9 (batch 3)).status ≡ BatchStatus.cancelled) ↔ (0 ≡ (batch 3).total_jobs))
    × (((settle 2 1 0 9 (batch 3)).status ≡ BatchStatus.partially_failed)
        ↔ ((2 + 1 + 0 ≡ (batch 3).total_jobs) × (0 < 2) × (2 < 3)))
    × (((settle 2 1 0 9 (batch 3)).status ≡ BatchStatus.failed)
        ↔ ((2 + 1 + 0 ≡ (batch 3).total_jobs) × (2 ≡ zero) × (0 < 1)))
batch_status_exact_example = batch_status_exact 2 1 0 9 (batch 3) refl (omega arith) (omega arith)
