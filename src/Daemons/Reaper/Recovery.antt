-- ===== src/Daemons/Reaper/Recovery.antt =====
-- What a sweep of the reaper recovers.
use job_schedular.Prelude.{
  true, false, List, [], ◌∷◌, ◌≡◌, inl, inr, ◌==◌, arith, All, Bool-cases, ltb, select_where,
  any_where, subst, select_where-hit, select_where-miss, All-map, All-update_where_to,
}
use job_schedular.Model.{Uuid, Time, Job, Db}
use job_schedular.Daemons.Reaper.{
  is_expired, requeue_row, escalate_row, reap_job, reap_jobs, expired_jobs, reap_expired_leases,
}

-- An expired job is one of those that are still to be swept.
abbrev IsListed : Time → List Job → Job → Type 0
IsListed now rest j = is_expired now j ≡ true → any_where (λ r. r.id == j.id) rest ≡ true

All-IsListed-cons :
    (now : Time) (r : Job) (rest jobs : List Job)
    → All (IsListed now rest) jobs
    → All (IsListed now (r ∷ rest)) jobs
unfolding any_where
All-IsListed-cons now r rest jobs =
    All-map (IsListed now rest) (IsListed now (r ∷ rest)) (λ j h e. rw (h e) (ground arith)) jobs

-- the rows that the sweep reads are all the expired rows
expired-IsListed :
    (now : Time) (jobs : List Job) → All (IsListed now (select_where (is_expired now) jobs)) jobs
unfolding any_where
expired-IsListed now [] = tt
expired-IsListed now (j ∷ jobs) = elim (Bool-cases (is_expired now j)) [
  | inl e ↦
      subst (λ sel. All (IsListed now sel) (j ∷ jobs)) (select_where-hit (is_expired now) j jobs e)
        (λ _. ground arith, All-IsListed-cons now j _ jobs (expired-IsListed now jobs))
  | inr e ↦
      subst (λ sel. All (IsListed now sel) (j ∷ jobs)) (select_where-miss (is_expired now) j jobs e)
        (λ e'. ground arith, expired-IsListed now jobs)
]

module _ (now : Time) (new_id : Uuid → Uuid) where
  -- One write takes its job off the list.
  reap_job-IsListed :
      (r : Job) (rest : List Job) (db : Db)
      → All (IsListed now (r ∷ rest)) db.jobs
      → All (IsListed now rest) (reap_job now new_id r db).jobs
  unfolding reap_job requeue_row escalate_row any_where
  reap_job-IsListed r rest db h = elim (Bool-cases (ltb r.attempt_count r.max_retries)) [
    | inl again ↦ rw again (
        All-update_where_to (IsListed now (r ∷ rest)) _ _ _ (λ x hx e ex. ground arith)
          (λ x hx e ex. ground (arith, hx ex)) db.jobs h)
    | inr done ↦ rw done (
        All-update_where_to (IsListed now (r ∷ rest)) _ _ _ (λ x hx e ex. ground arith)
          (λ x hx e ex. ground (arith, hx ex)) db.jobs h)
  ]

  reap_jobs-swept :
      (read : List Job) (db : Db)
      → All (IsListed now read) db.jobs
      → All (IsListed now []) (reap_jobs now new_id read db).jobs
  unfolding reap_jobs
  reap_jobs-swept [] db h = h
  reap_jobs-swept (r ∷ rest) db h =
      reap_jobs-swept rest (reap_job now new_id r db) (reap_job-IsListed r rest db h)

  -- A sweep that no other process interrupts leaves no running job with an expired lease.
  pub sweep_recovers :
      (db : Db) → All (λ j. is_expired now j ≡ false) (reap_expired_leases now new_id db db).1.jobs
  unfolding reap_expired_leases any_where
  sweep_recovers db =
      All-map (IsListed now []) _ (λ j h. ground (arith, h)) _
        (reap_jobs-swept (expired_jobs now db) _ (expired-IsListed now db.jobs))
