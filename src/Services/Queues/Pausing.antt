-- ===== src/Services/Queues/Pausing.antt =====
-- A paused queue gives out no jobs.
use job_schedular.Prelude.{
  true, Option, some, ◌≡◌, ◌≢◌, refl, sym, ap, ◌∙◌, arith, ◌==◌, All, All-update_where_of,
  All-find_where, find_where, find_where-passes, true≢false,
}
use job_schedular.Model.{Uuid, User, Job, Db}
use job_schedular.Engine.RateLimiter.{Buckets}
use job_schedular.Engine.Claimer.{Poll, claim_row, claim_next_job}
use job_schedular.Engine.Claimer.Selection.{claim_next_job-IsClaim}
use job_schedular.Services.Access.{ok, not_found, get_queue}
use job_schedular.Services.Access.Returns.{Returns, Returns-bind, Returns-ok, Returns-or_error}
use job_schedular.Services.Queues.{pause_queue, set_paused}

-- the rows of the queue are paused
abbrev ArePaused : Uuid → Db → Type 0
ArePaused q db = All (λ r. (r.id == q) ≡ true → r.is_paused ≡ true) db.queues

get_queue-id :
    (user : User) (q : Uuid) (db : Db) → Returns (λ r. (r.id == q) ≡ true) (get_queue db user q)
unfolding get_queue
get_queue-id user q db =
    Returns-or_error (λ r. (r.id == q) ≡ true) (find_where _ db.queues) not_found
      (λ r found. ground (arith, find_where-passes _ db.queues r found))

pause_queue-ArePaused :
    (user : User) (q : Uuid) (db db' : Db) → pause_queue user q true db ≡ ok db' → ArePaused q db'
unfolding pause_queue set_paused
pause_queue-ArePaused user q db db' e = Returns-ok (ArePaused q) _ db' e (
    Returns-bind (λ r. (r.id == q) ≡ true) (ArePaused q) (get_queue db user q) _
      (get_queue-id user q db)
      (λ r same.
        All-update_where_of _ _ _ (λ x hit own. refl) (λ x miss own. ground arith) db.queues))

-- After a queue has been paused, no poll claims a job of that queue, whichever worker polls and
-- whether it asks for that queue or for any.
pub paused_queue_rests :
    (user : User) (q : Uuid) (p : Poll) (only : Option Uuid) (bs bs' : Buckets) (db db' db'' : Db)
    (j : Job)
    → pause_queue user q true db ≡ ok db'
    → claim_next_job p only db' bs ≡ (some j, db'', bs')
    → j.queue_id ≢ q
unfolding claim_row
paused_queue_rests user q p only bs bs' db db' db'' j paused claimed same =
    let (i, r, found, won) = claim_next_job-IsClaim p only db' bs j db'' bs' claimed in
    let resting =
      All-find_where (λ x. (x.id == q) ≡ true → x.is_paused ≡ true) (λ x. x.id == i) db'.queues r
        (pause_queue-ArePaused user q db db' paused) found in
    let of_queue : won.row.queue_id ≡ q = ap (λ x. x.queue_id) (sym won.result) ∙ same in
    let mine : (r.id == q) ≡ true = ground (arith, won.best.claimable, of_queue) in
    true≢false (sym (resting mine) ∙ won.open_queue)
