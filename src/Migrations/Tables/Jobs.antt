-- ===== src/Migrations/Tables/Jobs.antt =====
-- alembic/versions: the tables of jobs, executions and dead letter entries.
use job_schedular.Prelude.{[], ◌∷◌}
use job_schedular.Migrations.Schema.{
  Table, EnumType, cascade, set_null, uuid, text, integer, boolean, timestamp, jsonb, string, enum,
  required, optional, unnamed_reference,
}

abbrev pub jobstatus_type : EnumType
jobstatus_type = record {
  name = "jobstatus";
  values =
      "queued" ∷ "scheduled" ∷ "claimed" ∷ "running" ∷ "completed" ∷ "failed" ∷ "cancelled"
      ∷ "dead_letter" ∷ [];
}

abbrev pub executionstatus_type : EnumType
executionstatus_type = record {
  name = "executionstatus";
  values = "success" ∷ "failed" ∷ "timeout" ∷ "killed" ∷ [];
}

abbrev pub jobs_table : Table
jobs_table = record {
  name = "jobs";
  columns =
      required "id" uuid
      ∷ required "queue_id" uuid
      ∷ optional "idempotency_key" (string 255)
      ∷ required "name" (string 255)
      ∷ required "status" (enum "jobstatus")
      ∷ required "priority" integer
      ∷ required "payload" jsonb
      ∷ optional "result" jsonb
      ∷ optional "error_message" text
      ∷ required "attempt_count" integer
      ∷ required "max_retries" integer
      ∷ required "run_at" timestamp
      ∷ optional "claimed_at" timestamp
      ∷ optional "started_at" timestamp
      ∷ optional "completed_at" timestamp
      ∷ optional "locked_by_worker_id" (string 100)
      ∷ optional "lock_expires_at" timestamp
      ∷ optional "parent_job_id" uuid
      ∷ required "tags" jsonb
      ∷ required "created_at" timestamp
      ∷ required "updated_at" timestamp
      ∷ [];
  primary_key = "id" ∷ [];
  uniques = [];
  references =
      unnamed_reference ("parent_job_id" ∷ []) "jobs.id" set_null
      ∷ unnamed_reference ("queue_id" ∷ []) "queues.id" cascade
      ∷ [];
  indexes = [];
}

abbrev pub job_executions_table : Table
job_executions_table = record {
  name = "job_executions";
  columns =
      required "id" uuid
      ∷ required "job_id" uuid
      ∷ required "worker_id" (string 100)
      ∷ required "attempt_number" integer
      ∷ required "status" (enum "executionstatus")
      ∷ required "started_at" timestamp
      ∷ required "finished_at" timestamp
      ∷ required "duration_ms" integer
      ∷ optional "error_message" text
      ∷ optional "stack_trace" text
      ∷ optional "logs" text
      ∷ [];
  primary_key = "id" ∷ [];
  uniques = [];
  references = unnamed_reference ("job_id" ∷ []) "jobs.id" cascade ∷ [];
  indexes = [];
}

abbrev pub dead_letter_queue_table : Table
dead_letter_queue_table = record {
  name = "dead_letter_queue";
  columns =
      required "id" uuid
      ∷ required "job_id" uuid
      ∷ required "queue_id" uuid
      ∷ required "failed_reason" text
      ∷ required "total_attempts" integer
      ∷ optional "last_error" text
      ∷ optional "ai_failure_summary" text
      ∷ required "moved_to_dlq_at" timestamp
      ∷ required "is_replayed" boolean
      ∷ optional "replayed_at" timestamp
      ∷ [];
  primary_key = "id" ∷ [];
  uniques = ("job_id" ∷ []) ∷ [];
  references =
      unnamed_reference ("job_id" ∷ []) "jobs.id" cascade
      ∷ unnamed_reference ("queue_id" ∷ []) "queues.id" cascade
      ∷ [];
  indexes = [];
}
