-- ===== src/Examples/Runner.antt =====
-- The theorems on executing jobs, at concrete inputs.
use job_schedular.Prelude.{
  true, false, none, some, [], ◌∷◌, ◌≡◌, ◌≢◌, refl, arith, All, count_where, update_where,
  select_where, find_where, any_where, sort_by, sym, true≢false, ◌==◌,
}
use job_schedular.Model.{Db, new_job, JobExecution, ExecutionStatus}
use job_schedular.Engine.RateLimiter.{
  allow_claim, find_bucket, put_bucket, new_bucket, bucket_or_new, consume, refill,
}
use job_schedular.Engine.Claimer.{
  claim_next_job, candidate_queues, claim_loop, claim_queue, claim_candidate, rate_check, claim_row,
  candidate, first_row,
}
use job_schedular.Engine.Claimer.Limits.{HasUniqueIds}
use job_schedular.Engine.Runner.{
  Context, Outcome, Ending, begin, returned, raised, finished, integrity_error, holds, waits_for,
  finalize, finalize_success, execution_row, complete_row, unlock_row, bury_row,
}
use job_schedular.Engine.Runner.Settling.{IsSettled, settles_job}
use job_schedular.Engine.Runner.Workflow.{
  SawChildren, final_outcome_frees_children, reaper_leaves_children, replayed_failure_is_lost,
}
use job_schedular.Engine.Daemon.{execute_job, after_claim, run_once, executed}
use job_schedular.Engine.Daemon.Pass.{run_once_settles}
use job_schedular.Daemons.Reaper.{reap_job}
use job_schedular.Services.Access.{ok}
use job_schedular.Services.Dlq.{
  replay_dlq_entry, get_dlq_entry, replay_one, replay_entry, replay_row,
}
use job_schedular.Examples.Numbers.{whole_numbers}
use job_schedular.Examples.Data.{
  alice, policy, queued, running, child, entry, with_jobs, poll, worker_on, ending,
}
use job_schedular.Examples.Engine.{two_queued, two_queued_unique, claimed_job, claimed_db}

-- a running job under the token 500 with two of its attempts made, and a child that waits
abbrev family : Db
family = with_jobs (running 1 2 500 130 ∷ child 2 1 ∷ [])

abbrev worker : Context
worker = worker_on (running 1 2 500 130) 500

family_unique : HasUniqueIds family.jobs
unfolding count_where new_job
family_unique i = ground arith

family-held : count_where (holds 1 (some 500)) family.jobs ≢ 0
unfolding count_where new_job
family-held e = omega (arith, e)

abbrev family_ending : Ending
family_ending = record ending { seen = family.jobs }

abbrev success_row : JobExecution
unfolding execution_row
success_row = execution_row worker ExecutionStatus.success none none family_ending

abbrev after_success : Db
unfolding complete_row unlock_row
after_success = record family {
  jobs = complete_row "ok" 200 (running 1 2 500 130) ∷ unlock_row 200 (child 2 1) ∷ [];
  executions = success_row ∷ [];
}

succeeds :
    finalize whole_numbers worker (returned "ok") family_ending family
    ≡ finished success_row after_success
unfolding finalize finalize_success execution_row complete_row unlock_row count_where update_where
    any_where new_job
succeeds = refl

settles_job_example :
    All
      (λ j. (j.id == 1) ≡ true → IsSettled worker (returned "ok") family_ending j)
      after_success.jobs
unfolding new_job
settles_job_example =
    settles_job whole_numbers worker (returned "ok") family_ending family after_success success_row
      family_unique family-held succeeds

family_seen : SawChildren worker family_ending family
unfolding any_where new_job
family_seen = ((λ w. absurd (true≢false (sym w))), ((λ w. refl), tt))

final_outcome_frees_children_example : All (λ j. waits_for 1 j ≡ false) after_success.jobs
unfolding new_job
final_outcome_frees_children_example =
    final_outcome_frees_children whole_numbers worker (returned "ok") family_ending family
      after_success success_row tt family_unique family-held family_seen succeeds

-- A sweep declares the parent dead, whose attempts are used up; the child waits on.
reaper_leaves_children_example :
    select_where (waits_for 1) (reap_job 200 (λ i. i) (running 1 3 500 130) family).jobs
    ≡ select_where (waits_for 1) family.jobs
unfolding new_job
reaper_leaves_children_example =
    reaper_leaves_children 200 (λ i. i) (running 1 3 500 130) family
      ((λ w. absurd (true≢false (sym w))), ((λ w. refl), tt))

-- a dead job with its entry, which is replayed and fails again
abbrev dead_family : Db
unfolding bury_row
dead_family = record (with_jobs (bury_row none 50 (running 1 3 500 130) ∷ [])) {
  dlq = entry 60 1 ∷ [];
}

abbrev replayed_family : Db
unfolding replay_one replay_entry replay_row
replayed_family = replay_one 60 (entry 60 1) dead_family

abbrev rerun_family : Db
rerun_family = record replayed_family { jobs = running 1 4 501 130 ∷ [] }

replays_one : replay_dlq_entry alice 60 60 dead_family ≡ ok (1 ∷ [], replayed_family)
unfolding replay_dlq_entry get_dlq_entry replay_one replay_entry replay_row find_where any_where
    update_where bury_row new_job
replays_one = refl

rerun-held : count_where (holds 1 (some 501)) rerun_family.jobs ≢ 0
unfolding count_where new_job replay_one update_where
rerun-held e = omega (arith, e)

replayed_failure_is_lost_example :
    finalize whole_numbers
      (worker_on (running 1 4 501 130) 501)
      (raised "boom" "")
      ending
      rerun_family
    ≡ integrity_error
unfolding new_job
replayed_failure_is_lost_example =
    replayed_failure_is_lost whole_numbers alice 60 60 dead_family replayed_family rerun_family
      (worker_on (running 1 4 501 130) 501) "boom" "" ending replays_one refl refl rerun-held

-- every handler succeeds
abbrev succeed : Context → Outcome × Ending
succeed c = (returned "ok", ending)

abbrev pass_context : Context
pass_context = record {
  job = claimed_job;
  lease_token = claimed_job.lease_token;
  policy = some policy;
  execution_id = 90;
  worker_id = "w1";
  started_at = 100;
}

abbrev pass_row : JobExecution
pass_row = execution_row pass_context ExecutionStatus.success none none ending

abbrev after_pass : Db
after_pass = record claimed_db {
  jobs = queued 1 10 ∷ complete_row "ok" 200 claimed_job ∷ [];
  executions = pass_row ∷ [];
}

passes :
    run_once whole_numbers succeed 90 poll (with_jobs two_queued) []
    ≡ executed pass_context (finished pass_row after_pass)
unfolding run_once after_claim execute_job begin finalize finalize_success execution_row
    complete_row unlock_row claim_next_job candidate_queues claim_loop claim_queue claim_candidate
    rate_check claim_row candidate first_row allow_claim find_bucket put_bucket bucket_or_new
    consume refill new_bucket new_job select_where find_where update_where count_where any_where
    sort_by
passes = refl

run_once_settles_example :
    All
      (λ j. (j.id == pass_context.job.id) ≡ true → IsSettled pass_context (returned "ok") ending j)
      after_pass.jobs
run_once_settles_example =
    run_once_settles whole_numbers succeed 90 poll (with_jobs two_queued) [] pass_context pass_row
      after_pass two_queued_unique passes
