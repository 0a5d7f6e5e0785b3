-- ===== src/Migrations/Tables/Queues.antt =====
-- alembic/versions: the tables of queues, retry policies and schedules.
use job_schedular.Prelude.{[], ◌∷◌}
use job_schedular.Migrations.Schema.{
  Table, EnumType, cascade, uuid, integer, float, boolean, timestamp, jsonb, string, enum, required,
  optional, unnamed_reference,
}

abbrev pub retrystrategy_type : EnumType
retrystrategy_type = record {
  name = "retrystrategy";
  values = "fixed" ∷ "linear" ∷ "exponential" ∷ [];
}

abbrev pub queues_table : Table
queues_table = record {
  name = "queues";
  columns =
      required "id" uuid
      ∷ required "project_id" uuid
      ∷ required "name" (string 100)
      ∷ required "priority" integer
      ∷ required "concurrency_limit" integer
      ∷ optional "rate_limit_rps" integer
      ∷ required "is_paused" boolean
      ∷ required "created_at" timestamp
      ∷ required "updated_at" timestamp
      ∷ [];
  primary_key = "id" ∷ [];
  uniques = ("project_id" ∷ "name" ∷ []) ∷ [];
  references = unnamed_reference ("project_id" ∷ []) "projects.id" cascade ∷ [];
  indexes = [];
}

abbrev pub retry_policies_table : Table
retry_policies_table = record {
  name = "retry_policies";
  columns =
      required "id" uuid
      ∷ required "queue_id" uuid
      ∷ required "strategy" (enum "retrystrategy")
      ∷ required "max_retries" integer
      ∷ required "initial_interval_sec" integer
      ∷ required "max_interval_sec" integer
      ∷ required "backoff_multiplier" float
      ∷ required "jitter" boolean
      ∷ required "created_at" timestamp
      ∷ [];
  primary_key = "id" ∷ [];
  uniques = ("queue_id" ∷ []) ∷ [];
  references = unnamed_reference ("queue_id" ∷ []) "queues.id" cascade ∷ [];
  indexes = [];
}

abbrev pub scheduled_jobs_table : Table
scheduled_jobs_table = record {
  name = "scheduled_jobs";
  columns =
      required "id" uuid
      ∷ required "project_id" uuid
      ∷ required "queue_id" uuid
      ∷ required "name" (string 255)
      ∷ required "cron_expression" (string 50)
      ∷ required "timezone" (string 50)
      ∷ required "payload" jsonb
      ∷ required "priority" integer
      ∷ required "is_active" boolean
      ∷ optional "last_run_at" timestamp
      ∷ required "next_run_at" timestamp
      ∷ required "total_runs_count" integer
      ∷ required "created_at" timestamp
      ∷ required "updated_at" timestamp
      ∷ [];
  primary_key = "id" ∷ [];
  uniques = [];
  references =
      unnamed_reference ("project_id" ∷ []) "projects.id" cascade
      ∷ unnamed_reference ("queue_id" ∷ []) "queues.id" cascade
      ∷ [];
  indexes = [];
}
