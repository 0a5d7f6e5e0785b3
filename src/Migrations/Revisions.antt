-- ===== src/Migrations/Revisions.antt =====
-- alembic/versions: `upgrade` and `downgrade` of the four revisions, in the order of their chain.
use job_schedular.Prelude.{List, [], ◌∷◌}
use job_schedular.Migrations.Schema.{
  Up, Down, create_table, create_index, add_column, create_foreign_key, create_type, drop_table,
  drop_index, drop_column, drop_constraint, drop_type, uuid, optional, set_null,
}
use job_schedular.Migrations.Tables.Indexes.{
  plain_index, unique_index, jobs_claim_ready_index, jobs_idempotency_index,
  jobs_running_lease_index,
}
use job_schedular.Migrations.Tables.Tenants.{
  userrole_type, organizations_table, projects_table, users_table, project_api_keys_table,
}
use job_schedular.Migrations.Tables.Queues.{
  retrystrategy_type, queues_table, retry_policies_table, scheduled_jobs_table,
}
use job_schedular.Migrations.Tables.Workers.{
  workerstatus_type, workers_table, worker_heartbeats_table,
}
use job_schedular.Migrations.Tables.Jobs.{
  jobstatus_type, executionstatus_type, jobs_table, job_executions_table, dead_letter_queue_table,
}
use job_schedular.Migrations.Tables.Later.{
  batch_status_type, idempotency_records_table, job_batches_table,
}

-- 76fae743c6be_initial_schema_baseline.py
abbrev pub upgrade_initial : List Up
upgrade_initial =
    create_table ([]) organizations_table
    ∷ create_index "organizations" (plain_index "ix_organizations_id" "id")
    ∷ create_index "organizations" (unique_index "ix_organizations_slug" "slug")
    ∷ create_table (workerstatus_type ∷ []) workers_table
    ∷ create_index "workers" (plain_index "ix_workers_last_heartbeat_at" "last_heartbeat_at")
    ∷ create_index "workers" (plain_index "ix_workers_status" "status")
    ∷ create_index "workers" (plain_index "ix_workers_worker_id" "worker_id")
    ∷ create_table ([]) projects_table
    ∷ create_index "projects" (plain_index "ix_projects_id" "id")
    ∷ create_index "projects" (plain_index "ix_projects_org_id" "org_id")
    ∷ create_table (userrole_type ∷ []) users_table
    ∷ create_index "users" (unique_index "ix_users_email" "email")
    ∷ create_index "users" (plain_index "ix_users_id" "id")
    ∷ create_index "users" (plain_index "ix_users_org_id" "org_id")
    ∷ create_table ([]) worker_heartbeats_table
    ∷ create_index "worker_heartbeats" (plain_index "ix_worker_heartbeats_timestamp" "timestamp")
    ∷ create_index "worker_heartbeats" (plain_index "ix_worker_heartbeats_worker_id" "worker_id")
    ∷ create_table ([]) project_api_keys_table
    ∷ create_index "project_api_keys" (plain_index "ix_project_api_keys_id" "id")
    ∷ create_index "project_api_keys" (unique_index "ix_project_api_keys_key_hash" "key_hash")
    ∷ create_index "project_api_keys" (plain_index "ix_project_api_keys_project_id" "project_id")
    ∷ create_table ([]) queues_table
    ∷ create_index "queues" (plain_index "ix_queues_id" "id")
    ∷ create_index "queues" (plain_index "ix_queues_project_id" "project_id")
    ∷ create_table (jobstatus_type ∷ []) jobs_table
    ∷ create_index "jobs" jobs_claim_ready_index
    ∷ create_index "jobs" jobs_idempotency_index
    ∷ create_index "jobs" jobs_running_lease_index
    ∷ create_index "jobs" (plain_index "ix_jobs_id" "id")
    ∷ create_index "jobs" (plain_index "ix_jobs_locked_by_worker_id" "locked_by_worker_id")
    ∷ create_index "jobs" (plain_index "ix_jobs_queue_id" "queue_id")
    ∷ create_index "jobs" (plain_index "ix_jobs_run_at" "run_at")
    ∷ create_index "jobs" (plain_index "ix_jobs_status" "status")
    ∷ create_table (retrystrategy_type ∷ []) retry_policies_table
    ∷ create_index "retry_policies" (plain_index "ix_retry_policies_id" "id")
    ∷ create_table ([]) scheduled_jobs_table
    ∷ create_index "scheduled_jobs" (plain_index "ix_scheduled_jobs_id" "id")
    ∷ create_index "scheduled_jobs" (plain_index "ix_scheduled_jobs_is_active" "is_active")
    ∷ create_index "scheduled_jobs" (plain_index "ix_scheduled_jobs_next_run_at" "next_run_at")
    ∷ create_index "scheduled_jobs" (plain_index "ix_scheduled_jobs_project_id" "project_id")
    ∷ create_index "scheduled_jobs" (plain_index "ix_scheduled_jobs_queue_id" "queue_id")
    ∷ create_table ([]) dead_letter_queue_table
    ∷ create_index "dead_letter_queue" (plain_index "ix_dead_letter_queue_id" "id")
    ∷ create_index "dead_letter_queue" (plain_index "ix_dead_letter_queue_queue_id" "queue_id")
    ∷ create_table (executionstatus_type ∷ []) job_executions_table
    ∷ create_index "job_executions" (plain_index "ix_job_executions_id" "id")
    ∷ create_index "job_executions" (plain_index "ix_job_executions_job_id" "job_id")
    ∷ create_index "job_executions" (plain_index "ix_job_executions_worker_id" "worker_id")
    ∷ []

abbrev pub downgrade_initial : List Down
downgrade_initial =
    drop_index "job_executions" "ix_job_executions_worker_id"
    ∷ drop_index "job_executions" "ix_job_executions_job_id"
    ∷ drop_index "job_executions" "ix_job_executions_id"
    ∷ drop_table "job_executions"
    ∷ drop_index "dead_letter_queue" "ix_dead_letter_queue_queue_id"
    ∷ drop_index "dead_letter_queue" "ix_dead_letter_queue_id"
    ∷ drop_table "dead_letter_queue"
    ∷ drop_index "scheduled_jobs" "ix_scheduled_jobs_queue_id"
    ∷ drop_index "scheduled_jobs" "ix_scheduled_jobs_project_id"
    ∷ drop_index "scheduled_jobs" "ix_scheduled_jobs_next_run_at"
    ∷ drop_index "scheduled_jobs" "ix_scheduled_jobs_is_active"
    ∷ drop_index "scheduled_jobs" "ix_scheduled_jobs_id"
    ∷ drop_table "scheduled_jobs"
    ∷ drop_index "retry_policies" "ix_retry_policies_id"
    ∷ drop_table "retry_policies"
    ∷ drop_index "jobs" "ix_jobs_status"
    ∷ drop_index "jobs" "ix_jobs_run_at"
    ∷ drop_index "jobs" "ix_jobs_queue_id"
    ∷ drop_index "jobs" "ix_jobs_locked_by_worker_id"
    ∷ drop_index "jobs" "ix_jobs_id"
    ∷ drop_index "jobs" "idx_jobs_running_lease"
    ∷ drop_index "jobs" "idx_jobs_idempotency"
    ∷ drop_index "jobs" "idx_jobs_claim_ready"
    ∷ drop_table "jobs"
    ∷ drop_index "queues" "ix_queues_project_id"
    ∷ drop_index "queues" "ix_queues_id"
    ∷ drop_table "queues"
    ∷ drop_index "project_api_keys" "ix_project_api_keys_project_id"
    ∷ drop_index "project_api_keys" "ix_project_api_keys_key_hash"
    ∷ drop_index "project_api_keys" "ix_project_api_keys_id"
    ∷ drop_table "project_api_keys"
    ∷ drop_index "worker_heartbeats" "ix_worker_heartbeats_worker_id"
    ∷ drop_index "worker_heartbeats" "ix_worker_heartbeats_timestamp"
    ∷ drop_table "worker_heartbeats"
    ∷ drop_index "users" "ix_users_org_id"
    ∷ drop_index "users" "ix_users_id"
    ∷ drop_index "users" "ix_users_email"
    ∷ drop_table "users"
    ∷ drop_index "projects" "ix_projects_org_id"
    ∷ drop_index "projects" "ix_projects_id"
    ∷ drop_table "projects"
    ∷ drop_index "workers" "ix_workers_worker_id"
    ∷ drop_index "workers" "ix_workers_status"
    ∷ drop_index "workers" "ix_workers_last_heartbeat_at"
    ∷ drop_table "workers"
    ∷ drop_index "organizations" "ix_organizations_slug"
    ∷ drop_index "organizations" "ix_organizations_id"
    ∷ drop_table "organizations"
    ∷ []

-- 92c3f8194b12_add_idempotency_records_table.py
abbrev pub upgrade_idempotency : List Up
upgrade_idempotency =
    create_table ([]) idempotency_records_table
    ∷ create_index "idempotency_records" (plain_index "ix_idempotency_records_id" "id")
    ∷ create_index "idempotency_records" (plain_index "ix_idempotency_records_job_id" "job_id")
    ∷ create_index "idempotency_records" (unique_index "ix_idempotency_records_key" "key")
    ∷ []

abbrev pub downgrade_idempotency : List Down
downgrade_idempotency =
    drop_index "idempotency_records" "ix_idempotency_records_key"
    ∷ drop_index "idempotency_records" "ix_idempotency_records_job_id"
    ∷ drop_index "idempotency_records" "ix_idempotency_records_id"
    ∷ drop_table "idempotency_records"
    ∷ []

-- b3c4d5e6f7a8_add_lease_token_to_jobs.py
abbrev pub upgrade_lease_token : List Up
upgrade_lease_token =
    add_column "jobs" (optional "lease_token" uuid)
    ∷ create_index "jobs" (plain_index "ix_jobs_lease_token" "lease_token")
    ∷ []

abbrev pub downgrade_lease_token : List Down
downgrade_lease_token =
    drop_index "jobs" "ix_jobs_lease_token" ∷ drop_column "jobs" "lease_token" ∷ []

-- c4d5e6f7a8b9_add_job_batches_table.py
abbrev pub upgrade_job_batches : List Up
upgrade_job_batches =
    create_type batch_status_type
    ∷ create_table ([]) job_batches_table
    ∷ create_index "job_batches" (plain_index "ix_job_batches_id" "id")
    ∷ create_index "job_batches" (plain_index "ix_job_batches_project_id" "project_id")
    ∷ create_index "job_batches" (plain_index "ix_job_batches_queue_id" "queue_id")
    ∷ create_index "job_batches" (plain_index "ix_job_batches_status" "status")
    ∷ add_column "jobs" (optional "batch_id" uuid)
    ∷ create_index "jobs" (plain_index "ix_jobs_batch_id" "batch_id")
    ∷ create_foreign_key "jobs" (record {
      name = "fk_jobs_batch_id_job_batches";
      columns = "batch_id" ∷ [];
      target = "job_batches";
      on_delete = set_null;
    })
    ∷ []

abbrev pub downgrade_job_batches : List Down
downgrade_job_batches =
    drop_constraint "jobs" "fk_jobs_batch_id_job_batches"
    ∷ drop_index "jobs" "ix_jobs_batch_id"
    ∷ drop_column "jobs" "batch_id"
    ∷ drop_index "job_batches" "ix_job_batches_status"
    ∷ drop_index "job_batches" "ix_job_batches_queue_id"
    ∷ drop_index "job_batches" "ix_job_batches_project_id"
    ∷ drop_index "job_batches" "ix_job_batches_id"
    ∷ drop_table "job_batches"
    ∷ drop_type "batch_status"
    ∷ []
