-- ===== src/Services/Access/Tenants.antt =====
-- Tenants are kept apart: what belongs to another organisation cannot be reached.
use job_schedular.Prelude.{false, ◌≡◌, refl, ap, arith, All, All-map, find_where-none}
use job_schedular.Model.{Uuid, Time, User, Db}
use job_schedular.Services.Access.{err, not_found, or_error, owns_queue, get_owned_job}
use job_schedular.Services.Jobs.{cancel_job, retry_job}

get_owned_job-none :
    (user : User) (id : Uuid) (db : Db)
    → All (λ j. j.id ≡ id → owns_queue db user j.queue_id ≡ false) db.jobs
    → get_owned_job db user id ≡ err not_found
unfolding get_owned_job
get_owned_job-none user id db foreign =
    ap (λ r. or_error r not_found)
      (find_where-none _ db.jobs (All-map _ _ (λ j h. ground (arith, h)) db.jobs foreign))

-- A job whose queue is not in a project of the user's organisation can neither be cancelled nor
-- retried by that user: both answer that there is no such job, and write nothing.
pub foreign_job_out_of_reach :
    (user : User) (id : Uuid) (now : Time) (db mid : Db)
    → All (λ j. j.id ≡ id → owns_queue db user j.queue_id ≡ false) db.jobs
    → (cancel_job user id now db mid ≡ err not_found)
      × (retry_job user id now db mid ≡ err not_found)
unfolding cancel_job retry_job
foreign_job_out_of_reach user id now db mid foreign =
    let gone = get_owned_job-none user id db foreign in (rw gone refl, rw gone refl)
