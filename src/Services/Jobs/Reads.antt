-- ===== src/Services/Jobs/Reads.antt =====
-- What backend/app/services/job_service.py reads: the filtered listing, and a job with its
-- executions, its dead letter entry and its latencies.
use job_schedular.Prelude.{
  ℕ, ◌-◌, String, Bool, true, ◌&&◌, ◌||◌, Option, none, some, List, [], ◌∷◌, ◌==◌, leb, ltb, str_eq,
  select_where, find_where, any_where, length, sort_by,
}
use Prim.Native.String.{◌++◌ as append}
use job_schedular.Model.{Uuid, Time, User, Job, JobStatus, JobExecution, DlqEntry, Db, is_status}
use job_schedular.Services.Access.{
  Result, ok, ◌>>=◌, owns_queue, get_owned_job, total_pages, page_of,
}
use job_schedular.Services.Figures.{Figures, elapsed_ms, first_min, first_max, sum_of}

pub record JobFilter : Type 0 where
  pub project_id : Option Uuid
  pub queue_id : Option Uuid
  pub status : Option JobStatus
  pub tag : Option String
  pub pattern : Option String

-- JOIN queues … WHERE projects.id = …
abbrev pub queue_in_project : Option Uuid → Db → Uuid → Bool
queue_in_project none db q = true
queue_in_project (some p) db q = any_where (λ r. r.id == q && r.project_id == p) db.queues

abbrev pub is_or_any : Option Uuid → Uuid → Bool
is_or_any none x = true
is_or_any (some y) x = x == y

abbrev status_passes : Option JobStatus → JobStatus → Bool
status_passes none s = true
status_passes (some t) s = is_status s t

-- A tag or a text to look for that is empty filters nothing.
abbrev tag_passes : Option String → List String → Bool
tag_passes none tags = true
tag_passes (some t) tags = str_eq t "" || any_where (str_eq t) tags

abbrev key_matches : Figures → Option String → String → Bool
key_matches figures none pattern = Bool.false
key_matches figures (some key) pattern = figures.ilike key pattern

abbrev search_passes : Figures → Option String → Job → Bool
search_passes figures none j = true
search_passes figures (some text) j =
    let pattern = append "%" (append text "%") in
    str_eq text "" || figures.ilike j.name pattern || key_matches figures j.idempotency_key pattern

unfoldable pub is_listed : Figures → User → JobFilter → Db → Job → Bool
is_listed figures user f db j =
    owns_queue db user j.queue_id
    && queue_in_project f.project_id db j.queue_id
    && is_or_any f.queue_id j.queue_id
    && status_passes f.status j.status
    && tag_passes f.tag j.tags
    && search_passes figures f.pattern j

-- ORDER BY created_at DESC, of which PostgreSQL leaves open how it orders rows with one
-- `created_at`: `tie` is what this query makes of them.
abbrev pub job_before_in : (Uuid → ℕ) → Job → Job → Bool
job_before_in tie a b =
    ltb b.created_at a.created_at || b.created_at == a.created_at && leb (tie a.id) (tie b.id)

pub record JobList : Type 0 where
  pub items : List Job
  pub total : ℕ
  pub page : ℕ
  pub page_size : ℕ
  pub total_pages : ℕ

unfoldable pub list_jobs : Figures → (Uuid → ℕ) → User → JobFilter → ℕ → ℕ → Db → JobList
unfolding total_pages page_of is_listed
list_jobs figures tie user f page page_size db =
    let found = select_where (is_listed figures user f db) db.jobs in
    record {
      items = page_of page page_size (sort_by (job_before_in tie) found);
      total = length found;
      page = page;
      page_size = page_size;
      total_pages = total_pages (length found) page_size;
    }

pub record JobDetail : Type 0 where
  pub job : Job
  pub executions : List JobExecution
  pub dlq_entry : Option DlqEntry
  pub queue_wait_ms : Option ℕ
  pub execution_duration_ms : Option ℕ
  pub retry_count : ℕ
  pub total_execution_time_ms : ℕ

abbrev pub queue_wait : Figures → Job → List JobExecution → Option Time → Option ℕ
queue_wait figures j es (some started) = some (elapsed_ms figures j.created_at started)
queue_wait figures j [] none = none
queue_wait figures j (e ∷ es) none =
    some (elapsed_ms figures j.created_at (first_min (λ x. x.started_at) e es).started_at)

-- the time of a job that has ended without an execution on record
abbrev pub own_duration : Figures → Option Time → Option Time → Option ℕ
own_duration figures none completed = none
own_duration figures (some started) none = none
own_duration figures (some started) (some completed) = some (elapsed_ms figures started completed)

abbrev pub duration_of : Figures → Job → List JobExecution → Option ℕ
duration_of figures j [] = own_duration figures j.started_at j.completed_at
duration_of figures j (e ∷ es) = some (first_max (λ x. x.attempt_number) e es).duration_ms

abbrev or_zero : Option ℕ → ℕ
or_zero none = 0
or_zero (some n) = n

abbrev pub total_time : Figures → Job → List JobExecution → ℕ
total_time figures j [] = or_zero (own_duration figures j.started_at j.completed_at)
total_time figures j (e ∷ es) = sum_of (λ x. x.duration_ms) (e ∷ es)

unfoldable pub get_job : Figures → User → Uuid → Db → Result JobDetail
unfolding get_owned_job first_min first_max sum_of
get_job figures user id db = do
  j ← get_owned_job db user id
  let es =
      sort_by (λ a b. leb a.attempt_number b.attempt_number)
        (select_where (λ e. e.job_id == j.id) db.executions)
  ok (record {
    job = j;
    executions = es;
    dlq_entry = find_where (λ d. d.job_id == j.id) db.dlq;
    queue_wait_ms = queue_wait figures j es j.started_at;
    execution_duration_ms = duration_of figures j es;
    retry_count = j.attempt_count - 1;
    total_execution_time_ms = total_time figures j es;
  })

unfoldable pub get_job_logs : Figures → User → Uuid → Db → Result (List JobExecution)
unfolding get_job
get_job_logs figures user id db = do detail ← get_job figures user id db; ok detail.executions
