-- ===== src/Engine/Runner/Settling.antt =====
-- How an execution settles the job that the worker still holds.
use job_schedular.Prelude.{
  ◌+◌, ◌≤◌, String, true, false, none, some, ◌≡◌, ◌≢◌, ◌⊎◌, refl, sym, ◌∙◌, inl, inr, ◌==◌, arith,
  All, All-update_where_to, All-update_where, true≢false, only_row_passes, Bool-cases, ltb,
  count_where, any_where, update_where,
}
use job_schedular.Model.{Json, seconds, Job, JobStatus, JobExecution, Db}
use job_schedular.Engine.Retry.{Floats}
use job_schedular.Engine.Retry.Bounds.{delay_in_future}
use job_schedular.Engine.Runner.{
  Context, Outcome, returned, raised, Ending, Finish, finished, integrity_error, holds, finalize,
  finalize_success, finalize_retry, finalize_bury, complete_row, retry_row, bury_row, unlock_row,
  cancel_child_row,
}
use job_schedular.Engine.Claimer.Limits.{HasUniqueIds}

-- What becomes of the job, by the handler's outcome and the attempts that were made.
abbrev pub IsSettled : Context → Outcome → Ending → Job → Type 0
IsSettled c (returned r) e j =
    (j.status ≡ JobStatus.completed)
    × (j.result ≡ some r)
    × (j.lease_token ≡ none)
    × (j.locked_by_worker_id ≡ none)
    × (j.lock_expires_at ≡ none)
IsSettled c (raised m trace) e j =
    ((ltb c.job.attempt_count c.job.max_retries ≡ true)
      × (j.status ≡ JobStatus.scheduled)
      × (e.at + seconds 1 ≤ j.run_at)
      × (j.lease_token ≡ none)
      × (j.lock_expires_at ≡ none))
    ⊎ ((ltb c.job.attempt_count c.job.max_retries ≡ false)
        × (j.status ≡ JobStatus.dead_letter)
        × (j.lease_token ≡ none)
        × (j.lock_expires_at ≡ none))

abbrev SettlesAll : Context → Outcome → Ending → Finish → Type 0
SettlesAll c o e (finished ex db) = All (λ j. (j.id == c.job.id) ≡ true → IsSettled c o e j) db.jobs
SettlesAll c o e integrity_error = Unit

module _ (c : Context) (e : Ending) (db : Db) (unique : HasUniqueIds db.jobs)
    (held : count_where (holds c.job.id c.lease_token) db.jobs ≢ 0) where
  -- the row of the job is the one that the lease is on
  pub held_rows :
      All (λ j. (j.id == c.job.id) ≡ true → holds c.job.id c.lease_token j ≡ true) db.jobs
  held_rows =
      only_row_passes (holds c.job.id c.lease_token) (λ j. j.id == c.job.id) (λ j h. ground arith)
        db.jobs (unique c.job.id) held

  not_fenced : (count_where (holds c.job.id c.lease_token) db.jobs == 0) ≡ false
  not_fenced = ground arith

  -- The settling UPDATE reaches the row of the job.
  settling_update :
      (P : Job → Type 0) (f : Job → Job)
      → ((j : Job) → (j.id == c.job.id) ≡ true → P (f j))
      → All
          (λ j. (j.id == c.job.id) ≡ true → P j)
          (update_where (holds c.job.id c.lease_token) f db.jobs)
  settling_update P f hit =
      All-update_where_to _ _ _ _ (λ x h e' i. hit x (ground arith))
        (λ x h miss i. absurd (true≢false (sym (h i) ∙ miss))) db.jobs held_rows

  finalize_success-settles : (r : Json) → SettlesAll c (returned r) e (finalize_success c r e db)
  unfolding finalize_success complete_row unlock_row
  finalize_success-settles r = rw not_fenced (
      All-update_where _ _ _ (λ x px w i. ground (arith, px i)) _
        (settling_update (IsSettled c (returned r) e) _ (λ j i. (refl, refl, refl, refl, refl))))

  finalize_retry-settles :
      (fl : Floats) (m trace : String)
      → ltb c.job.attempt_count c.job.max_retries ≡ true
      → SettlesAll c (raised m trace) e (finalize_retry fl c m trace e db)
  unfolding finalize_retry retry_row
  finalize_retry-settles fl m trace again =
      let later = delay_in_future fl c.job.attempt_count c.policy false e.draw in
      rw not_fenced (
        settling_update (IsSettled c (raised m trace) e) _
          (λ j i. inl (again, rw later.0 refl, omega (arith, later.1), refl, refl)))

  finalize_bury-settles :
      (m trace : String)
      → ltb c.job.attempt_count c.job.max_retries ≡ false
      → SettlesAll c (raised m trace) e (finalize_bury c m trace e db)
  unfolding finalize_bury bury_row cancel_child_row
  finalize_bury-settles m trace done =
      elim (Bool-cases (any_where (λ d. d.job_id == c.job.id) db.dlq)) [
        | inl there ↦ rw (not_fenced, there) tt
        | inr fresh ↦
            rw (not_fenced, fresh)
              (All-update_where _ _ _ (λ x px w i. ground (arith, px i)) _
                (settling_update (IsSettled c (raised m trace) e) _
                  (λ j i. inr (done, refl, refl, refl))))
      ]

  finalize-settles : (fl : Floats) (o : Outcome) → SettlesAll c o e (finalize fl c o e db)
  unfolding finalize
  finalize-settles fl (returned r) = finalize_success-settles r
  finalize-settles fl (raised m trace) =
      elim (Bool-cases (ltb c.job.attempt_count c.job.max_retries)) [
        | inl again ↦ rw again (finalize_retry-settles fl m trace again)
        | inr done ↦ rw done (finalize_bury-settles m trace done)
      ]

-- If job ids are unique, the worker still holds the lease and the settling is committed: the job's
-- row is completed with the result; or, after an exception with attempts left, scheduled at least
-- one second later; or, with none left, dead. In each case its lease is gone.
pub settles_job :
    (fl : Floats) (c : Context) (o : Outcome) (e : Ending) (db db' : Db) (ex : JobExecution)
    → HasUniqueIds db.jobs
    → count_where (holds c.job.id c.lease_token) db.jobs ≢ 0
    → finalize fl c o e db ≡ finished ex db'
    → All (λ j. (j.id == c.job.id) ≡ true → IsSettled c o e j) db'.jobs
settles_job fl c o e db db' ex unique held done =
    rw done at (finalize-settles c e db unique held fl o)
