-- ===== src/Examples/Tenants.antt =====
-- The theorem on other tenants, at concrete inputs: Alice's organisation and another share the
-- database.
use job_schedular.Prelude.{some, [], ◌∷◌, ◌==◌, if◌then◌else◌}
use job_schedular.Model.{Uuid, Project, Queue, Job, Db}
use job_schedular.Services.Jobs.{cancel_row}
use job_schedular.Examples.Api.{office}
use job_schedular.Examples.Data.{billing, mail, queued, entry, batch}

abbrev their_project : Project
their_project = record billing { id = 98; org_id = 77 }

abbrev their_queue : Queue
their_queue = record mail { id = 99; project_id = 98 }

abbrev their_job : Job
their_job = record (queued 9 10) { queue_id = 99 }

abbrev shared : Db
shared = record office {
  projects = billing ∷ their_project ∷ [];
  queues = mail ∷ their_queue ∷ [];
  jobs = queued 1 10 ∷ their_job ∷ record (queued 2 10) { batch_id = some 40 } ∷ [];
  dlq = entry 60 1 ∷ [];
  batches = batch 1 ∷ [];
}

abbrev home : Uuid → Uuid
home id = if id == 9 then 99 else 30

-- another process has inserted a job of the other organisation meanwhile
abbrev later : Db
later = record shared { jobs = their_job ∷ shared.jobs }

abbrev after_cancel : Db
unfolding cancel_row
after_cancel = record later {
  jobs =
      their_job
      ∷ cancel_row (queued 1 10) 5 (queued 1 10)
      ∷ their_job
      ∷ record (queued 2 10) { batch_id = some 40 }
      ∷ [];
}
