-- ===== src/Examples/Services.antt =====
-- The theorems on requests, tenants, paused queues and recurring schedules, at concrete inputs.
use job_schedular.Prelude.{
  ◌+◌, String, true, false, none, some, [], ◌∷◌, ◌++◌, ◌≡◌, ◌≢◌, refl, find_where, any_where,
  update_where, select_where, count_where, sort_by,
}
use job_schedular.Model.{
  Uuid, Time, Job, JobStatus, Queue, ScheduledJob, IdempotencyRecord, Db, new_job,
}
use job_schedular.Engine.RateLimiter.{allow_claim}
use job_schedular.Engine.Claimer.{
  claim_next_job, candidate_queues, claim_loop, claim_queue, claim_candidate, rate_check, claim_row,
  candidate, first_row,
}
use job_schedular.Engine.SideEffects.{
  new_record, perform, recall, execute_idempotent_operation, performed, skipped,
}
use job_schedular.Engine.SideEffects.Once.{performed_once}
use job_schedular.Services.Access.{ok, get_queue}
use job_schedular.Services.Jobs.{
  JobCreate, create_job, create_keyed, insert_keyed, plan_job, requested_job,
}
use job_schedular.Services.Jobs.Idempotency.{create_job_again}
use job_schedular.Services.Queues.{pause_queue, set_paused}
use job_schedular.Services.Queues.Pausing.{paused_queue_rests}
use job_schedular.Daemons.Cron.{insert_on_conflict, dispatch_one}
use job_schedular.Daemons.Cron.Occurrence.{occurrence_spawned_once}
use job_schedular.Examples.Data.{alice, mail, item, queued, with_jobs, poll}

abbrev empty_queue : Db
empty_queue = with_jobs []

abbrev keyed_item : JobCreate
keyed_item = record item { delay_seconds = none; idempotency_key = some "order-1" }

abbrev keyed_job : Job
keyed_job = requested_job 70 30 (some "order-1") keyed_item (JobStatus.queued, 9) 9

first_request :
    create_job alice 30 keyed_item none 70 9 empty_queue empty_queue
    ≡ ok (keyed_job, with_jobs (keyed_job ∷ []))
unfolding create_job create_keyed insert_keyed insert_on_conflict plan_job requested_job get_queue
    find_where any_where new_job
first_request = refl

-- the same key again, in the header, for another task
create_job_again_example :
    create_job alice 30 item
      (some "order-1")
      71
      99
      (with_jobs (keyed_job ∷ []))
      (with_jobs (keyed_job ∷ []))
    ≡ ok (keyed_job, with_jobs (keyed_job ∷ []))
create_job_again_example =
    create_job_again alice 30 keyed_item item none (some "order-1") 70 71 9 99 "order-1" empty_queue
      (with_jobs (keyed_job ∷ [])) keyed_job refl refl first_request

-- two queues, of which the first is paused
abbrev reports : Queue
reports = record mail { id = 32; name = "reports"; rate_limit_rps = none }

abbrev other_job : Job
other_job = record (queued 2 10) { queue_id = 32 }

abbrev two_queues : Db
two_queues = record (with_jobs (queued 1 10 ∷ other_job ∷ [])) { queues = mail ∷ reports ∷ [] }

abbrev one_paused : Db
one_paused = record two_queues { queues = set_paused true mail ∷ reports ∷ [] }

abbrev other_claimed : Job
other_claimed = claim_row poll 32 other_job

pauses : pause_queue alice 30 true two_queues ≡ ok one_paused
unfolding pause_queue get_queue find_where any_where update_where set_paused
pauses = refl

claims_other :
    claim_next_job poll none one_paused []
    ≡ (some other_claimed, record one_paused { jobs = queued 1 10 ∷ other_claimed ∷ [] }, [])
unfolding claim_next_job candidate_queues claim_loop claim_queue claim_candidate rate_check
    claim_row candidate first_row allow_claim new_job set_paused select_where find_where
    update_where count_where any_where sort_by
claims_other = refl

paused_queue_rests_example : other_claimed.queue_id ≢ 30
paused_queue_rests_example =
    paused_queue_rests alice 30 poll none [] [] two_queues one_paused
      (record one_paused { jobs = queued 1 10 ∷ other_claimed ∷ [] }) other_claimed pauses
      claims_other

abbrev hourly : ScheduledJob
hourly = record {
  id = 80;
  project_id = 20;
  queue_id = 30;
  name = "report";
  cron_expression = "0 * * * *";
  timezone = "UTC";
  payload = "{}";
  priority = 10;
  is_active = true;
  last_run_at = none;
  next_run_at = 50;
  total_runs_count = 0;
  created_at = 0;
  updated_at = 0;
}

abbrev next_hour : String → Time → Time
next_hour expression t = t + 3600000000

abbrev plain_key : Uuid → Time → String
plain_key id t = "cron:80:50"

abbrev dispatched : Db
dispatched =
    (dispatch_one next_hour plain_key (λ i. "schedule:80") 60 (λ i. 71) hourly (with_jobs [])).1

nothing_more : dispatched.jobs ≡ dispatched.jobs ++ []
unfolding dispatch_one insert_on_conflict any_where
nothing_more = refl

occurrence_spawned_once_example :
    ((dispatch_one next_hour plain_key (λ i. "schedule:80") 61 (λ i. 72) hourly dispatched).0
      ≡ false)
    × ((dispatch_one next_hour plain_key (λ i. "schedule:80") 61 (λ i. 72) hourly dispatched).1.jobs
        ≡ dispatched.jobs)
occurrence_spawned_once_example =
    occurrence_spawned_once next_hour plain_key (λ i. "schedule:80") 60 61 (λ i. 71) (λ i. 72)
      hourly (with_jobs []) dispatched [] nothing_more

-- a parent that has completed, and a child whose time has come
abbrev waiting_family : Db
waiting_family = with_jobs (
    record (queued 1 10) { status = JobStatus.completed }
    ∷ record (queued 2 10) { status = JobStatus.scheduled; parent_job_id = some 1 }
    ∷ [])

abbrev charge_record : IdempotencyRecord
charge_record = new_record 85 1 "job:1:op:charge" "paid"

abbrev charged : Db
charged = record (with_jobs []) { records = charge_record ∷ [] }

charges :
    execute_idempotent_operation 85 1 "job:1:op:charge" (some "paid") (with_jobs [])
    ≡ performed "paid" charged
unfolding execute_idempotent_operation recall perform new_record find_where
charges = refl

performed_once_example :
    execute_idempotent_operation 86 1 "job:1:op:charge" (some "paid twice") charged ≡ skipped "paid"
performed_once_example =
    performed_once 85 86 1 1 "job:1:op:charge" (some "paid") (some "paid twice") "paid"
      (with_jobs []) charged charged charges refl
