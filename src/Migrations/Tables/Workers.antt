-- ===== src/Migrations/Tables/Workers.antt =====
-- alembic/versions: the tables of workers and their heartbeats.
use job_schedular.Prelude.{[], ◌∷◌}
use job_schedular.Migrations.Schema.{
  Table, EnumType, cascade, integer, big_integer, float, timestamp, jsonb, string, enum, required,
  unnamed_reference,
}

abbrev pub workerstatus_type : EnumType
workerstatus_type = record { name = "workerstatus"; values = "alive" ∷ "draining" ∷ "dead" ∷ [] }

abbrev pub workers_table : Table
workers_table = record {
  name = "workers";
  columns =
      required "worker_id" (string 100)
      ∷ required "hostname" (string 255)
      ∷ required "pid" integer
      ∷ required "concurrency_limit" integer
      ∷ required "current_active_jobs" integer
      ∷ required "status" (enum "workerstatus")
      ∷ required "assigned_queues" jsonb
      ∷ required "started_at" timestamp
      ∷ required "last_heartbeat_at" timestamp
      ∷ [];
  primary_key = "worker_id" ∷ [];
  uniques = [];
  references = [];
  indexes = [];
}

abbrev pub worker_heartbeats_table : Table
worker_heartbeats_table = record {
  name = "worker_heartbeats";
  columns =
      required "id" big_integer
      ∷ required "worker_id" (string 100)
      ∷ required "cpu_percent" float
      ∷ required "memory_mb" float
      ∷ required "active_jobs" integer
      ∷ required "timestamp" timestamp
      ∷ [];
  primary_key = "id" ∷ [];
  uniques = [];
  references = unnamed_reference ("worker_id" ∷ []) "workers.worker_id" cascade ∷ [];
  indexes = [];
}
