-- ===== src/Api/Roles/Refusals.antt =====
-- Who may write: what the guards let pass, and what they refuse.
use job_schedular.Prelude.{
  ◌≡◌, refl, sym, ◌∙◌, Bool, true, false, Option, Bool-cases, ◌⊎◌, inl, inr,
}
use job_schedular.Model.{Time, User, UserRole, Db, is_role}
use job_schedular.Services.Access.{Error, Result, ok, err, forbidden, ◌>>=◌, ◌>>◌, raise_unless}
use job_schedular.Api.Routes.{Host}
use job_schedular.Api.Guards.{
  may_develop, get_current_user, require_admin, require_developer_or_admin,
}
use job_schedular.Api.Roles.{
  Write, serve, needs_admin, create_job, create_jobs_batch, cancel_job, retry_job, create_batch,
  cancel_batch, retry_batch, create_schedule, update_schedule, pause_schedule, resume_schedule,
  delete_schedule, replay_dlq_entry, replay_all_dlq_entries, purge_dlq_entry, create_project,
  update_project, create_api_key, create_queue, update_queue, pause_queue, resume_queue,
  delete_queue, drain_worker, delete_worker,
}

abbrev pub suffices : Bool → User → Bool
suffices true user = is_role user.role UserRole.admin
suffices false user = may_develop user

abbrev checked : Bool → User → Result User
checked admin_only user = do raise_unless (suffices admin_only user) forbidden; ok user

checked-cases :
    (admin_only : Bool) (user : User)
    → ((suffices admin_only user ≡ true) × (checked admin_only user ≡ ok user))
      ⊎ (checked admin_only user ≡ err forbidden)
checked-cases admin_only user = elim (Bool-cases (suffices admin_only user)) [
  | inl enough ↦ inl (enough, rw enough refl)
  | inr less ↦ inr (rw less refl)
]

module _ {Token : Type 0} (host : Host Token) (credentials : Option Token) (now : Time) where
  abbrev guard : Bool → Db → Result User
  guard true db = require_admin host.crypto host.settings credentials now db
  guard false db = require_developer_or_admin host.crypto host.settings credentials now db

  guard-checked :
      (admin_only : Bool) (db : Db)
      → guard admin_only db
        ≡ (get_current_user host.crypto host.settings credentials now db >>= checked admin_only)
  unfolding require_admin require_developer_or_admin
  guard-checked true db = refl
  guard-checked false db = refl

  guard-error :
      (admin_only : Bool) (e : Error) (db : Db)
      → get_current_user host.crypto host.settings credentials now db ≡ err e
      → guard admin_only db ≡ err e
  guard-error admin_only e db h = guard-checked admin_only db ∙ rw h refl

  guard-refuses :
      (admin_only : Bool) (user : User) (db : Db)
      → get_current_user host.crypto host.settings credentials now db ≡ ok user
      → suffices admin_only user ≡ false
      → guard admin_only db ≡ err forbidden
  guard-refuses admin_only user db h less = guard-checked admin_only db ∙ rw (h, less) refl

  -- A request that its guard refuses ends there.
  serve-refused :
      (e : Error) (w : Write) (db mid : Db)
      → guard (needs_admin w) db ≡ err e
      → serve host credentials now w db mid ≡ err e
  unfolding serve needs_admin
  serve-refused e (create_job q req header id) db mid h = rw h refl
  serve-refused e (create_jobs_batch q items new_id) db mid h = rw h refl
  serve-refused e (cancel_job id) db mid h = rw h refl
  serve-refused e (retry_job id) db mid h = rw h refl
  serve-refused e (create_batch q req id new_id) db mid h = rw h refl
  serve-refused e (cancel_batch id) db mid h = rw h refl
  serve-refused e (retry_batch id) db mid h = rw h refl
  serve-refused e (create_schedule q req id) db mid h = rw h refl
  serve-refused e (update_schedule id req) db mid h = rw h refl
  serve-refused e (pause_schedule id) db mid h = rw h refl
  serve-refused e (resume_schedule id) db mid h = rw h refl
  serve-refused e (delete_schedule id) db mid h = rw h refl
  serve-refused e (replay_dlq_entry id) db mid h = rw h refl
  serve-refused e (replay_all_dlq_entries q) db mid h = rw h refl
  serve-refused e (purge_dlq_entry id) db mid h = rw h refl
  serve-refused e (create_project req id hex4) db mid h = rw h refl
  serve-refused e (update_project id req) db mid h = rw h refl
  serve-refused e (create_api_key p req id token) db mid h = rw h refl
  serve-refused e (create_queue p req id policy_id) db mid h = rw h refl
  serve-refused e (update_queue id req policy_id) db mid h = rw h refl
  serve-refused e (pause_queue id) db mid h = rw h refl
  serve-refused e (resume_queue id) db mid h = rw h refl
  serve-refused e (delete_queue id) db mid h = rw h refl
  serve-refused e (drain_worker id) db mid h = rw h refl
  serve-refused e (delete_worker id) db mid h = rw h refl

  passed :
      (w : Write) (db mid after : Db) (found : Result User)
      → get_current_user host.crypto host.settings credentials now db ≡ found
      → serve host credentials now w db mid ≡ ok after
      → (user : User) × (found ≡ ok user) × (suffices (needs_admin w) user ≡ true)
  passed w db mid after (err e) h served =
      absurd (ok≢err (sym (serve-refused e w db mid (guard-error (needs_admin w) e db h)) ∙ served))
    where
      ok≢err : err e ≡ ok after → ⊥
      ok≢err q = cc
  passed w db mid after (ok user) h served = elim (Bool-cases (suffices (needs_admin w) user)) [
    | inl enough ↦ (user, refl, enough)
    | inr less ↦ absurd (
        ok≢err (
          sym (serve-refused forbidden w db mid (guard-refuses (needs_admin w) user db h less))
          ∙ served))
  ]
    where
      ok≢err : err forbidden ≡ ok after → ⊥
      ok≢err q = cc

  -- A writing request that succeeds was sent by a user who is logged in: by an administrator, if it
  -- is about projects, keys, queues or workers, and else by an administrator or a member.
  pub serve-suffices :
      (w : Write) (db mid after : Db)
      → serve host credentials now w db mid ≡ ok after
      → (user : User) × (get_current_user host.crypto host.settings credentials now db ≡ ok user)
        × (suffices (needs_admin w) user ≡ true)
  serve-suffices w db mid after served = passed w db mid after _ refl served

too_little :
    (admin_only : Bool) (user : User)
    → (suffices admin_only user ≡ false) ⊎ (user.role ≡ UserRole.viewer)
    → suffices admin_only user ≡ false
too_little admin_only user (inl less) = less
too_little true user (inr viewer) = rw viewer refl
too_little false user (inr viewer) = rw viewer refl

-- Every writing request of a user whose role is not enough for it is forbidden, whatever it asks
-- for: a viewer can write nothing at all.
pub small_role_refused :
    {Token : Type 0} (host : Host Token) (credentials : Option Token) (now : Time) (w : Write)
    (db mid : Db) (user : User)
    → get_current_user host.crypto host.settings credentials now db ≡ ok user
    → (suffices (needs_admin w) user ≡ false) ⊎ (user.role ≡ UserRole.viewer)
    → serve host credentials now w db mid ≡ err forbidden
small_role_refused host credentials now w db mid user h less =
    serve-refused host credentials now forbidden w db mid (
      guard-refuses host credentials now (needs_admin w) user db h
        (too_little (needs_admin w) user less))
