-- ===== src/Migrations/Tables/Later.antt =====
-- alembic/versions: the tables of records of idempotency and batches.
use job_schedular.Prelude.{[], ◌∷◌}
use job_schedular.Migrations.Schema.{
  Table, EnumType, cascade, uuid, text, integer, timestamp, jsonb, string, enum, required, optional,
  defaulted, unnamed_reference,
}

abbrev pub batch_status_type : EnumType
batch_status_type = record {
  name = "batch_status";
  values =
      "pending" ∷ "processing" ∷ "completed" ∷ "partially_failed" ∷ "failed" ∷ "cancelled" ∷ [];
}

abbrev pub idempotency_records_table : Table
idempotency_records_table = record {
  name = "idempotency_records";
  columns =
      required "id" uuid
      ∷ optional "job_id" uuid
      ∷ required "key" (string 255)
      ∷ defaulted "scope" (string 100) "external_side_effect"
      ∷ defaulted "status" (string 50) "completed"
      ∷ optional "response_payload" jsonb
      ∷ defaulted "created_at" timestamp "now()"
      ∷ defaulted "updated_at" timestamp "now()"
      ∷ [];
  primary_key = "id" ∷ [];
  uniques = ("key" ∷ []) ∷ [];
  references = unnamed_reference ("job_id" ∷ []) "jobs.id" cascade ∷ [];
  indexes = [];
}

abbrev pub job_batches_table : Table
job_batches_table = record {
  name = "job_batches";
  columns =
      required "id" uuid
      ∷ required "project_id" uuid
      ∷ required "queue_id" uuid
      ∷ required "name" (string 255)
      ∷ optional "description" text
      ∷ defaulted "status" (enum "batch_status") "processing"
      ∷ defaulted "total_jobs" integer "0"
      ∷ defaulted "completed_jobs" integer "0"
      ∷ defaulted "failed_jobs" integer "0"
      ∷ defaulted "cancelled_jobs" integer "0"
      ∷ defaulted "created_at" timestamp "now()"
      ∷ defaulted "updated_at" timestamp "now()"
      ∷ optional "completed_at" timestamp
      ∷ [];
  primary_key = "id" ∷ [];
  uniques = [];
  references =
      unnamed_reference ("project_id" ∷ []) "projects.id" cascade
      ∷ unnamed_reference ("queue_id" ∷ []) "queues.id" cascade
      ∷ [];
  indexes = [];
}
