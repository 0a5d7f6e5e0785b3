-- ===== src/Examples/Loop.antt =====
-- The theorems on the polling loop and on the table of buckets, at concrete inputs.
use job_schedular.Prelude.{
  ◌+◌, ◌≤◌, ◌≡◌, refl, ◌⊎◌, arith, true, false, none, some, List, [], ◌∷◌, length, any_where,
}
use job_schedular.Engine.RateLimiter.{find_bucket}
use job_schedular.Engine.RateLimiter.Bounds.{Call, allow_all}
use job_schedular.Engine.RateLimiter.Refinement.{
  calls_for, own_answers, own_end, answers_for, limiter-own_answers,
}
use job_schedular.Engine.Daemon.Loop.{
  Phase, Loop, Event, exited, test_running, acquired, claimed, finished, stopped, started,
  remove_task, advance, run,
}
use job_schedular.Engine.Daemon.Loop.Permits.{account, run-IsAccounted}
use job_schedular.Engine.Daemon.Loop.Drain.{is_progress, stopped_loop_drains}

-- With two permits: a job is claimed and runs on when the loop is told to stop.
abbrev busy : List Event
busy = test_running ∷ acquired ∷ claimed 7 ∷ stopped ∷ []

abbrev busy_loop : Loop
busy_loop = record { is_running = false; permits = 1; active = 7 ∷ []; phase = Phase.at_test }

busy_runs : run busy (started 2) ≡ some busy_loop
unfolding run started
busy_runs = refl

-- The loop is left before the job has finished.
abbrev leaves : List Event
leaves = test_running ∷ []

abbrev left_loop : Loop
left_loop = record { is_running = false; permits = 1; active = 7 ∷ []; phase = Phase.exited }

leaves_runs : run leaves busy_loop ≡ some left_loop
unfolding run
leaves_runs = refl

drained_test :
    run (finished 7 ∷ []) left_loop
    ≡ some (record { is_running = false; permits = 2; active = []; phase = Phase.exited })
unfolding run remove_task any_where
drained_test = refl

run-IsAccounted_example :
    (length busy_loop.active ≤ 2)
    × ((account busy_loop ≡ 2) ⊎ ((busy_loop.phase ≡ exited) × (account busy_loop ≡ 2 + 1)))
run-IsAccounted_example = run-IsAccounted 2 busy busy_loop busy_runs

stopped_loop_drains_example :
    (length leaves ≤ 2 + 4)
    × (((left_loop.phase ≡ exited) × (left_loop.active ≡ []))
        ⊎ ((e : Event) × (next : Loop) × (is_progress e ≡ true)
            × (advance e left_loop ≡ some next)))
stopped_loop_drains_example =
    stopped_loop_drains 2 busy leaves busy_loop left_loop (omega arith) busy_runs refl (refl, tt)
      leaves_runs

-- calls for two queues in turn
abbrev turns : List Call
turns = (1, some 1, 0) ∷ (2, some 3, 5) ∷ (1, some 1, 6) ∷ (2, none, 9) ∷ []

limiter-own_answers_example :
    (answers_for 1 turns [] ≡ own_answers (calls_for 1 turns) (find_bucket 1 []))
    × (find_bucket 1 (allow_all turns []) ≡ own_end (calls_for 1 turns) (find_bucket 1 []))
limiter-own_answers_example = limiter-own_answers 1 turns []
