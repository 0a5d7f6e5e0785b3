-- ===== src/Services/Dlq.antt =====
-- backend/app/services/dlq_service.py: replaying and purging dead letter entries. An entry's job
-- is there as long as the entry is (job_id is a foreign key that cascades).
use job_schedular.Prelude.{
  ℕ, Bool, true, not, ◌&&◌, Option, none, some, List, [], ◌∷◌, map, ◌==◌, select_where, find_where,
  update_where, length, leb, ltb, ◌||◌, sort_by,
}
use job_schedular.Model.{Uuid, Time, User, Job, JobStatus, DlqEntry, Db}
use job_schedular.Services.Access.{
  Result, ok, not_found, ◌>>=◌, or_error, owns_queue, total_pages, page_of,
}

unfoldable pub get_dlq_entry : User → Uuid → Db → Result DlqEntry
get_dlq_entry user id db =
    or_error (find_where (λ d. d.id == id && owns_queue db user d.queue_id) db.dlq) not_found

unfoldable pub replay_entry : Time → DlqEntry → DlqEntry
replay_entry now d = record d { is_replayed = true; replayed_at = some now }

unfoldable pub replay_row : Time → Job → Job
replay_row now j = record j {
  status = JobStatus.queued;
  run_at = now;
  locked_by_worker_id = none;
  lock_expires_at = none;
  error_message = none;
  updated_at = now;
}

-- one entry and its job
unfoldable pub replay_one : Time → DlqEntry → Db → Db
unfolding replay_entry replay_row
replay_one now d db = record db {
  dlq = update_where (λ r. r.id == d.id) (replay_entry now) db.dlq;
  jobs = update_where (λ j. j.id == d.job_id) (replay_row now) db.jobs;
}

unfoldable pub replay_dlq_entry : User → Uuid → Time → Db → Result (List Uuid × Db)
unfolding get_dlq_entry replay_one
replay_dlq_entry user id now db = do
  d ← get_dlq_entry user id db
  ok (d.job_id ∷ [], replay_one now d db)

unfoldable pub replay_entries : Time → List DlqEntry → Db → Db
unfolding replay_one
replay_entries now [] db = db
replay_entries now (d ∷ ds) db = replay_entries now ds (replay_one now d db)

abbrev pub is_replayable : Db → User → Uuid → DlqEntry → Bool
is_replayable db user q d = d.queue_id == q && not d.is_replayed && owns_queue db user d.queue_id

-- The ids of the replayed jobs; with nothing to replay nothing is written.
unfoldable pub replay_all_dlq_entries : User → Uuid → Time → Db → List Uuid × Db
unfolding replay_entries
replay_all_dlq_entries user q now db =
    let entries = select_where (is_replayable db user q) db.dlq in
    (map (λ d. d.job_id) entries, replay_entries now entries db)

unfoldable pub purge_dlq_entry : User → Uuid → Db → Result Db
unfolding get_dlq_entry
purge_dlq_entry user id db = do
  d ← get_dlq_entry user id db
  ok (record db { dlq = select_where (λ r. not (r.id == d.id)) db.dlq })

-- The entries of the page, their number and the number of pages. The order is by
-- `moved_to_dlq_at`, descending, and by `tie` where that is the same.
abbrev pub in_dlq_of : Db → User → Option Uuid → DlqEntry → Bool
in_dlq_of db user none d = owns_queue db user d.queue_id
in_dlq_of db user (some q) d = owns_queue db user d.queue_id && d.queue_id == q

abbrev pub entry_before_in : (Uuid → ℕ) → DlqEntry → DlqEntry → Bool
entry_before_in tie a b =
    ltb b.moved_to_dlq_at a.moved_to_dlq_at
    || b.moved_to_dlq_at == a.moved_to_dlq_at && leb (tie a.id) (tie b.id)

unfoldable pub list_dlq_entries :
    (Uuid → ℕ) → User → Option Uuid → ℕ → ℕ → Db → List DlqEntry × ℕ × ℕ
unfolding total_pages page_of
list_dlq_entries tie user q page page_size db =
    let found = select_where (in_dlq_of db user q) db.dlq in
    let total = length found in
    (
      page_of page page_size (sort_by (entry_before_in tie) found),
      total,
      total_pages total page_size,
    )
