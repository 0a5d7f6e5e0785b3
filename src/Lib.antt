-- ===== src/Lib.antt =====
-- A distributed job scheduler on PostgreSQL: REST services put jobs into queues, workers claim and
-- execute them under leases, and daemons recover, promote and spawn them.
--
-- Every process works on one database, a committed transaction at a time. The model is that
-- database as a record of tables, each operation as a function on it, and the whole system as the
-- relation `Step` of the transactions that any process may commit next.
--
-- Model        backend/app/models: the enumerations and the rows. `new_job` is Job(…).
-- Engine
--   Retry        worker/app/engine/retry.py, RetryBackoffCalculator.calculate_delay
--   RateLimiter  worker/app/engine/rate_limiter.py, TokenBucket and QueueRateLimiter.allow_claim
--   Claimer      worker/app/engine/claimer.py, AtomicClaimer.claim_next_job: `candidate_queues`,
--                then `claim_loop` over them, each through `claim_queue`, `claim_candidate` and
--                `rate_check`
--   Runner       worker/app/engine/runner.py, TaskRunner.execute_job: `begin` before the handler
--                and `finalize` after it, which is one of `finalize_success`, `finalize_retry` and
--                `finalize_bury`
--   Daemon       worker/app/engine/daemon.py, WorkerDaemon: `register`, `drain` and `leave`, and
--                `run_once`, which is `claim_next_job`, `begin` and `finalize` in a row; Daemon/Loop:
--                the polling loop of `start` with its semaphore and its tasks, as events
--   SideEffects  worker/app/engine/context.py, execute_idempotent_operation
--   Diagnosis    worker/app/engine/ai_diagnostics.py, analyze_failure
--   Registry     worker/app/tasks/registry.py, TaskRegistry
-- Daemons
--   Heartbeat    worker/app/heartbeat.py, _record_heartbeat
--   Reaper       worker/app/reaper.py, reap_expired_leases
--   Promoter     worker/app/promoter.py, promote_due_jobs
--   Cron         worker/app/cron.py, dispatch_due_schedules
--   Loop         the loops around these, their start and their stop
-- Services     backend/app/services: Access (the joins that keep tenants apart, errors, and pages),
--              Jobs, Batches, Dlq, Queues, Schedules, Projects and Accounts, a file for each
--              service with what it reads in a child; Telemetry; Slugs: `slugify`; Tokens:
--              backend/app/core/security.py; Listings: all pages of a listing together; Isolation:
--              what the services do to the jobs of other tenants
-- Api          backend/app/api: Guards, deps.py; Routes, a file for each router of api/v1, in which
--              a definition `…_route` is the guard of an endpoint and the call of its service;
--              Roles, the writing endpoints as one type of requests, `Write`, which `serve` answers;
--              Live, backend/app/core/ws_manager.py and api/v1/ws.py
-- System       `Step`, the runs `Reach`, and what holds along every run; Rows: what each operation
--              does to a row of the jobs; Scheduler: worker/scheduler_main.py
-- Migrations   alembic/versions: the four revisions as statements on a schema. What a statement does
--              is in Schema, as Alembic and PostgreSQL document it as far as names go; that a table
--              or a type which others depend on cannot be dropped is left out
-- Prelude      tables as lists: SELECT, UPDATE and COUNT, sorting, and their lemmas
-- Examples     the theorems at concrete inputs
--
-- How the statements are read. A transaction takes effect at its commit, in one piece; where an
-- operation writes by id what it read earlier, without a lock, it takes the database that it reads
-- and the one that it writes as two arguments (the reaper, and the creation, the cancellation and
-- the retry of a job). Rows locked elsewhere, which SKIP LOCKED passes over, are a predicate that
-- the operation takes. Clocks, fresh UUIDs, random draws, the outcome of a task handler, the
-- fire times of croniter and the answers of the language models are arguments, too. So are bcrypt
-- and python-jose, with laws that say what they document, the tables of characters of `re`,
-- SHA-256, ILIKE and the rounding of figures. Of ties in an ORDER BY the model takes the row that
-- stands first, the same in every query; in the listings of jobs and of dead letter entries, which
-- come in pages, each query orders them by an argument of its own.
--
-- The end of an execution is given, as an argument, the jobs as its SELECT of the children saw them,
-- and writes by id those that waited. A cancellation and a retry by hand, which may find any values,
-- write the columns that differ from those they read. The reaper is simpler than the source here: it
-- writes all its columns of a job that it read, which was running then.
--
-- Numbers are unbounded naturals, as in Python; columns are 32-bit in the database, and the
-- request schemas keep what users enter far below that. An instant is in microseconds, as
-- PostgreSQL stores it. Doubles are a parameter, `Floats`, with the laws of order that the delays
-- rely on; a column of doubles holds their bits. The token bucket counts millionths of tokens, on
-- a monotonic clock in microseconds, so that its refill is exact. The
-- power in a delay is total here; Python raises OverflowError, at sizes that the bounds of the
-- request schemas (20 retries, multipliers up to 10) keep far away. Every loop of the modelled code
-- runs over a list or is a sequence of events. One needs fuel, that of `broadcast`, whose list other
-- coroutines may lengthen: one more than there are clients is enough when none comes or goes.
--
-- Not modelled: the transport of web sockets, and which operations broadcast; logs; the calls of
-- the language models, the demonstration tasks, the validation of request bodies, the widths of
-- columns, the failure of a statement other than by the constraints named in the definitions, and
-- deadlocks.
mod Prelude
mod Examples
pub mod Model
pub mod Engine
pub mod Daemons
pub mod Services
pub mod Api
pub mod System
pub mod Migrations
