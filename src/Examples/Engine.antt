-- ===== src/Examples/Engine.antt =====
-- The theorems on retry delays, rate limits and claiming, at concrete inputs.
use job_schedular.Prelude.{
  ◌*◌, ◌≤◌, true, false, none, some, List, [], ◌∷◌, ◌≡◌, ◌≢◌, refl, ltb, arith, count_where,
  update_where, select_where, find_where, any_where, sort_by, ◌==◌,
}
use job_schedular.Model.{Uuid, seconds, Job, Queue, Db, new_job}
use job_schedular.Engine.Retry.{
  calculate_delay, capped_delay, terms, multiplier, raw_delay, min_float, max_float,
}
use job_schedular.Engine.Retry.Bounds.{delay_within}
use job_schedular.Engine.Retry.Growth.{delay_grows}
use job_schedular.Engine.RateLimiter.{
  allow_claim, find_bucket, put_bucket, new_bucket, bucket_or_new, consume, refill, token,
  TokenBucket,
}
use job_schedular.Engine.RateLimiter.Bounds.{Call, Timed, allowed_for, allowed_budget}
use job_schedular.Engine.Claimer.{
  claim_next_job, candidate_queues, claim_loop, claim_queue, claim_candidate, rate_check, claim_row,
  revert_row, candidate, first_row, is_live,
}
use job_schedular.Engine.Claimer.Selection.{IsClaim, claim_next_job-IsClaim}
use job_schedular.Engine.Claimer.Limits.{
  HasUniqueIds, claim_within_limit, counts, empty_poll_refunds,
}
use job_schedular.Engine.Runner.{holds}
use job_schedular.Engine.Runner.Holding.{claimed_job_is_held}
use job_schedular.Examples.Numbers.{whole_numbers}
use job_schedular.Examples.Data.{policy, queued, with_jobs, poll}

-- the second attempt under the policy waits for ten seconds, the jitter aside
delay_second : calculate_delay whole_numbers 2 (some policy) true 0 ≡ 10
unfolding calculate_delay capped_delay terms multiplier raw_delay min_float max_float
delay_second = refl

delay_within_example :
    (ltb (max_float whole_numbers 1 60) (calculate_delay whole_numbers 9 (some policy) false 1)
      ≡ false)
    × (ltb 0 (calculate_delay whole_numbers 9 (some policy) false 1) ≡ true)
    × (seconds 1 ≤ seconds (calculate_delay whole_numbers 9 (some policy) false 1))
unfolding terms multiplier
delay_within_example = delay_within whole_numbers 9 (some policy) false 1 refl

delay_grows_example :
    ltb
      (calculate_delay whole_numbers 4 (some policy) true 0)
      (calculate_delay whole_numbers 2 (some policy) true 0)
    ≡ false
unfolding multiplier
delay_grows_example = delay_grows whole_numbers 2 4 policy 0 0 refl (omega arith)

-- a bucket of one token per second
abbrev bucket : TokenBucket
unfolding new_bucket
bucket = new_bucket 1 0

abbrev three_calls : List Call
three_calls = (30, some 1, 0) ∷ (31, none, 5) ∷ (30, some 1, 10) ∷ []

allowed_once : allowed_for 30 three_calls ((30, bucket) ∷ []) ≡ 1
unfolding allow_claim find_bucket put_bucket bucket_or_new consume refill new_bucket
allowed_once = refl

allowed_budget_example : allowed_for 30 three_calls ((30, bucket) ∷ []) * token ≤ 1000010
unfolding find_bucket new_bucket
allowed_budget_example =
    allowed_budget 30 three_calls 0 10 ((30, bucket) ∷ []) bucket refl (omega arith) timed
  where
    timed : Timed 0 10 three_calls
    timed = (omega arith, (omega arith, (omega arith, omega arith)))

abbrev pub two_queued : List Job
two_queued = queued 1 10 ∷ queued 2 20 ∷ []

-- the job of the higher priority, as the poll claims it
abbrev pub claimed_job : Job
unfolding claim_row
claimed_job = claim_row poll 30 (queued 2 20)

abbrev pub claimed_db : Db
claimed_db = with_jobs (queued 1 10 ∷ claimed_job ∷ [])

abbrev pub bucket_used : TokenBucket
unfolding consume refill new_bucket
bucket_used = (consume token (new_bucket 1 100) 100).1

claims_first :
    claim_next_job poll none (with_jobs two_queued) []
    ≡ (some claimed_job, claimed_db, (30, bucket_used) ∷ [])
unfolding claim_next_job candidate_queues claim_loop claim_queue claim_candidate rate_check
    claim_row candidate first_row allow_claim find_bucket put_bucket bucket_or_new consume refill
    new_bucket new_job select_where find_where update_where count_where any_where sort_by
claims_first = refl

claim_next_job-IsClaim_example : IsClaim poll (with_jobs two_queued) claimed_job claimed_db
claim_next_job-IsClaim_example =
    claim_next_job-IsClaim poll none (with_jobs two_queued) [] claimed_job claimed_db
      ((30, bucket_used) ∷ []) claims_first

pub two_queued_unique : HasUniqueIds two_queued
unfolding count_where new_job
two_queued_unique i = ground arith

claim_within_limit_example :
    (i : Uuid) × (q : Queue) × (find_where (λ r. r.id == i) (with_jobs two_queued).queues ≡ some q)
    × (claimed_job.queue_id ≡ q.id)
    × (count_where (is_live q.id poll.now) claimed_db.jobs ≤ q.concurrency_limit)
claim_within_limit_example =
    claim_within_limit poll none (with_jobs two_queued) [] claimed_job claimed_db
      ((30, bucket_used) ∷ []) two_queued_unique claims_first

claimed_job_is_held_example :
    count_where (holds claimed_job.id claimed_job.lease_token) claimed_db.jobs ≢ 0
claimed_job_is_held_example =
    claimed_job_is_held poll none (with_jobs two_queued) [] claimed_job claimed_db
      ((30, bucket_used) ∷ []) claims_first

-- The bucket of the queue is empty, so the rate limit refuses the claim.
refused_poll : (claim_next_job poll none (with_jobs two_queued) ((30, bucket_used) ∷ [])).0 ≡ none
unfolding claim_next_job candidate_queues claim_loop claim_queue claim_candidate rate_check
    claim_row revert_row candidate first_row allow_claim find_bucket put_bucket bucket_or_new
    consume refill new_bucket new_job select_where find_where update_where count_where any_where
    sort_by
refused_poll = refl

empty_poll_refunds_example :
    counts (claim_next_job poll none (with_jobs two_queued) ((30, bucket_used) ∷ [])).1.jobs
    ≡ counts two_queued
empty_poll_refunds_example =
    empty_poll_refunds poll none (with_jobs two_queued) ((30, bucket_used) ∷ []) refused_poll
