-- ===== src/Migrations/Tables/Indexes.antt =====
-- alembic/versions: the indexes.
use job_schedular.Prelude.{String, true, false, [], ◌∷◌, none, some}
use job_schedular.Migrations.Schema.{Index}

-- op.create_index(name, …, [key], unique=False)
abbrev pub plain_index : String → String → Index
plain_index name key = record { name = name; keys = key ∷ []; unique = false; condition = none }

abbrev pub unique_index : String → String → Index
unique_index name key = record { name = name; keys = key ∷ []; unique = true; condition = none }

abbrev pub jobs_claim_ready_index : Index
jobs_claim_ready_index = record {
  name = "idx_jobs_claim_ready";
  keys = "queue_id" ∷ "priority DESC" ∷ "run_at ASC" ∷ [];
  unique = false;
  condition = some "status = 'queued'";
}

abbrev pub jobs_idempotency_index : Index
jobs_idempotency_index = record {
  name = "idx_jobs_idempotency";
  keys = "queue_id" ∷ "idempotency_key" ∷ [];
  unique = true;
  condition = some "idempotency_key IS NOT NULL";
}

abbrev pub jobs_running_lease_index : Index
jobs_running_lease_index = record {
  name = "idx_jobs_running_lease";
  keys = "lock_expires_at" ∷ [];
  unique = false;
  condition = some "status = 'running'";
}
