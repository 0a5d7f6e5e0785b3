-- ===== src/Engine/Runner/Workflow.antt =====
-- What the end of an execution does to the children of the job, and to its dead letter entry.
use job_schedular.Prelude.{
  ℕ, String, Bool, true, false, ◌&&◌, some, List, [], ◌∷◌, ◌≡◌, ◌≢◌, refl, subst, ◌∙◌, inl, inr,
  ◌==◌, arith, All, All-update_where_to, true≢false, sym, Bool-cases, ltb, count_where, any_where,
  update_where, find_where, Option-cases, select_where, select_where-update_where, ==-refl,
}
use job_schedular.Model.{Uuid, Time, Json, Job, JobExecution, User, DlqEntry, Db}
use job_schedular.Engine.Retry.{Floats}
use job_schedular.Engine.Runner.{
  Context, Outcome, returned, raised, Ending, Finish, finished, integrity_error, holds, waits_for,
  finalize, finalize_success, finalize_bury, unlock_row, cancel_child_row, is_freed, complete_row,
  bury_row,
}
use job_schedular.Engine.Claimer.Limits.{HasUniqueIds}
use job_schedular.Engine.Runner.Settling.{held_rows}
use job_schedular.Services.Access.{Result, ok, err, not_found, owns_queue}
use job_schedular.Services.Dlq.{replay_one, replay_dlq_entry, get_dlq_entry, replay_entry}
use job_schedular.Daemons.Reaper.{reap_job, requeue_row, escalate_row}

All-both : (P Q : Job → Type 0) (xs : List Job) → All P xs → All Q xs → All (λ x. P x × Q x) xs
All-both P Q [] p q = tt
All-both P Q (x ∷ xs) p q = ((p.0, q.0), All-both P Q xs p.1 q.1)

-- After a success, or after a failure that ends in the dead letter queue, no job waits for this
-- one any more.
abbrev NoneWaits : Context → Finish → Type 0
NoneWaits c (finished ex db) = All (λ j. waits_for c.job.id j ≡ false) db.jobs
NoneWaits c integrity_error = Unit

-- Every row that waits for the job as the commit lands was seen to wait.
abbrev pub SawChildren : Context → Ending → Db → Type 0
SawChildren c e db =
    All
      (λ j.
        waits_for c.job.id j ≡ true
        → any_where (λ x. x.id == j.id && waits_for c.job.id x) e.seen ≡ true)
      db.jobs

module _ (c : Context) (e : Ending) (db : Db) (unique : HasUniqueIds db.jobs)
    (held : count_where (holds c.job.id c.lease_token) db.jobs ≢ 0) (saw : SawChildren c e db) where
  -- Freeing the children, after a write that leaves the job in another state, leaves none waiting.
  freed_rows :
      (settle free : Job → Job)
      → ((j : Job) → waits_for c.job.id (settle j) ≡ false)
      → ((j : Job) → waits_for c.job.id (free j) ≡ false)
      → All
          (λ j. waits_for c.job.id j ≡ false)
          (update_where
            (is_freed c.job.id e.seen)
            free
            (update_where (holds c.job.id c.lease_token) settle db.jobs))
  freed_rows settle free settled freed =
      let P : Job → Type 0 = λ j. waits_for c.job.id j ≡ true → is_freed c.job.id e.seen j ≡ true in
      let rows : All P (update_where (holds c.job.id c.lease_token) settle db.jobs) =
        All-update_where_to _ _ _ _ (λ x h mine w. absurd (true≢false (sym w ∙ settled x)))
          (λ x h miss w. ground (arith, h.0 w, h.1)) db.jobs
          (All-both _ _ db.jobs saw (held_rows c e db unique held)) in
      All-update_where_to _ _ _ _ (λ x h hit. freed x)
        (λ x h miss. elim (Bool-cases (waits_for c.job.id x)) [
          | inl w ↦ absurd (true≢false (sym (h w) ∙ miss))
          | inr free ↦ free
        ])
        _ rows

  pub success_frees_children : (r : Json) → NoneWaits c (finalize_success c r e db)
  unfolding finalize_success unlock_row complete_row
  success_frees_children r =
      let held' : (count_where (holds c.job.id c.lease_token) db.jobs == 0) ≡ false =
        ground arith in
      rw held' (freed_rows _ _ (λ j. ground arith) (λ j. ground arith))

  pub burial_frees_children : (m trace : String) → NoneWaits c (finalize_bury c m trace e db)
  unfolding finalize_bury cancel_child_row bury_row
  burial_frees_children m trace =
      let held' : (count_where (holds c.job.id c.lease_token) db.jobs == 0) ≡ false =
        ground arith in
      elim (Bool-cases (any_where (λ d. d.job_id == c.job.id) db.dlq)) [
        | inl there ↦ rw (held', there) tt
        | inr fresh ↦ rw (held', fresh) (freed_rows _ _ (λ j. ground arith) (λ j. ground arith))
      ]

-- The outcome ends the job: it succeeded, or it failed with no attempt left.
abbrev pub IsFinal : Context → Outcome → Type 0
IsFinal c (returned r) = Unit
IsFinal c (raised m trace) = ltb c.job.attempt_count c.job.max_retries ≡ false

finalize-NoneWaits :
    (fl : Floats) (c : Context) (o : Outcome) (e : Ending) (db : Db)
    → IsFinal c o
    → HasUniqueIds db.jobs
    → count_where (holds c.job.id c.lease_token) db.jobs ≢ 0
    → SawChildren c e db
    → NoneWaits c (finalize fl c o e db)
unfolding finalize
finalize-NoneWaits fl c (returned r) e db final unique held saw =
    success_frees_children c e db unique held saw r
finalize-NoneWaits fl c (raised m trace) e db final unique held saw =
    rw final (burial_frees_children c e db unique held saw m trace)

-- Let job ids be unique, and let a worker that holds the lease settle a job for good, as succeeded
-- or as dead, and commit it. If every job that waits for this one at the commit was seen to wait by
-- the SELECT of the children, none waits for it afterwards in the scheduled state.
pub final_outcome_frees_children :
    (fl : Floats) (c : Context) (o : Outcome) (e : Ending) (db db' : Db) (ex : JobExecution)
    → IsFinal c o
    → HasUniqueIds db.jobs
    → count_where (holds c.job.id c.lease_token) db.jobs ≢ 0
    → SawChildren c e db
    → finalize fl c o e db ≡ finished ex db'
    → All (λ j. waits_for c.job.id j ≡ false) db'.jobs
final_outcome_frees_children fl c o e db db' ex final unique held saw done =
    rw done at (finalize-NoneWaits fl c o e db final unique held saw)

-- The write of the reaper for an expired job leaves the job's children as they are, also when it
-- declares the job dead: if no job waits for itself, those that waited for it before are exactly
-- those that wait for it after.
pub reaper_leaves_children :
    (now : Time) (new_id : Uuid → Uuid) (parent : Job) (db : Db)
    → All (λ j. waits_for parent.id j ≡ true → (j.id == parent.id) ≡ false) db.jobs
    → select_where (waits_for parent.id) (reap_job now new_id parent db).jobs
      ≡ select_where (waits_for parent.id) db.jobs
unfolding reap_job requeue_row escalate_row
reaper_leaves_children now new_id parent db own =
    elim (Bool-cases (ltb parent.attempt_count parent.max_retries)) [
      | inl again ↦ rw again (select_where-update_where _ _ _ (λ x w hit. ground arith) db.jobs own)
      | inr done ↦ rw done (select_where-update_where _ _ _ (λ x w hit. ground arith) db.jobs own)
    ]

-- replaying marks the entries and keeps them
replay_entry-kept :
    (now : Time) (i : Uuid) (job : Uuid) (entries : List DlqEntry)
    → any_where (λ d. d.job_id == job) (update_where (λ d. d.id == i) (replay_entry now) entries)
      ≡ any_where (λ d. d.job_id == job) entries
unfolding any_where update_where replay_entry
replay_entry-kept now i job [] = refl
replay_entry-kept now i job (d ∷ entries) = ground (arith, replay_entry-kept now i job entries)

-- an entry that is found is there for its job
find_where-any :
    (p : DlqEntry → Bool) (entries : List DlqEntry) (d : DlqEntry)
    → find_where p entries ≡ some d
    → any_where (λ r. r.job_id == d.job_id) entries ≡ true
unfolding find_where any_where
find_where-any p [] d e = cc
find_where-any p (r ∷ rest) d e = elim (Bool-cases (p r)) [
  | inl hit ↦ ground (arith, ==-refl d.job_id)
  | inr miss ↦ rw (find_where-any p rest d (rw miss at e)) (ground arith)
]

replayed_parts :
    (now : Time) (p : DlqEntry → Bool) (d : DlqEntry) (db db' : Db) (job : Uuid)
    → find_where p db.dlq ≡ some d
    → ◌≡◌ {A = Result (List Uuid × Db)}
        (ok (d.job_id ∷ [], replay_one now d db))
        (ok (job ∷ [], db'))
    → any_where (λ r. r.job_id == job) db'.dlq ≡ true
unfolding replay_one
replayed_parts now p d db db' job found e =
    let same : d.job_id ≡ job = cc in
    let written : replay_one now d db ≡ db' = cc in
    subst (λ x. any_where (λ r. r.job_id == job) x.dlq ≡ true) written
      (replay_entry-kept now d.id job db.dlq
        ∙ subst (λ i. any_where (λ r. r.job_id == i) db.dlq ≡ true) same
            (find_where-any p db.dlq d found))

replayed_entry_stays :
    (user : User) (id now : ℕ) (db db' : Db) (job : Uuid)
    → replay_dlq_entry user id now db ≡ ok (job ∷ [], db')
    → any_where (λ d. d.job_id == job) db'.dlq ≡ true
unfolding replay_dlq_entry get_dlq_entry
replayed_entry_stays user id now db db' job e =
    elim (Option-cases (find_where (λ d. d.id == id && owns_queue db user d.queue_id) db.dlq)) [
      | inl missing ↦ absurd (err≢ok (rw missing at e))
      | inr (d, found) ↦ replayed_parts now _ d db db' job found (rw found at e)
    ]
  where
    err≢ok : ◌≡◌ {A = Result (List Uuid × Db)} (err not_found) (ok (job ∷ [], db')) → ⊥
    err≢ok h = cc

-- After the dead letter entry of a job has been replayed, and while the entries are as the replay
-- left them: if a worker holds the job, its attempts are used up and the handler fails, then the
-- second entry breaks the unique constraint, and nothing of the execution is committed.
pub replayed_failure_is_lost :
    (fl : Floats) (user : User) (id now : ℕ) (db db' db2 : Db) (c : Context) (m trace : String)
    (e : Ending)
    → replay_dlq_entry user id now db ≡ ok (c.job.id ∷ [], db')
    → db2.dlq ≡ db'.dlq
    → ltb c.job.attempt_count c.job.max_retries ≡ false
    → count_where (holds c.job.id c.lease_token) db2.jobs ≢ 0
    → finalize fl c (raised m trace) e db2 ≡ integrity_error
unfolding finalize finalize_bury
replayed_failure_is_lost fl user id now db db' db2 c m trace e replayed same used held =
    let held' : (count_where (holds c.job.id c.lease_token) db2.jobs == 0) ≡ false = ground arith in
    let there : any_where (λ d. d.job_id == c.job.id) db2.dlq ≡ true =
      rw same (replayed_entry_stays user id now db db' c.job.id replayed) in
    rw (used, held', there)
