-- ===== src/Engine/SideEffects/Once.antt =====
-- An operation that has been performed is not performed again.
use job_schedular.Prelude.{
  String, true, Option, none, some, ◌≡◌, refl, inl, inr, Bool-cases, ◌==◌, ==-refl, str_eq,
  find_where, find_where-insert, find_where-update,
}
use text.Mathlib.TextPositions.{eq_refl}
use job_schedular.Model.{Uuid, Json, IdempotencyRecord, Db}
use job_schedular.Engine.SideEffects.{
  Effect, skipped, performed, failed, record_again, new_record, is_for, perform, recall,
  execute_idempotent_operation,
}

-- What an effect leaves: a completed record with its answer under the key.
abbrev Recorded : String → Effect → Type 0
Recorded key (skipped result) = Unit
Recorded key (performed result db) =
    (r : IdempotencyRecord) × (find_where (is_for key) db.records ≡ some r)
    × (str_eq r.status "completed" ≡ true)
    × (r.response_payload ≡ some result)
Recorded key failed = Unit

perform-Recorded :
    (found : Option IdempotencyRecord) (id job_id : Uuid) (key : String) (answer : Option Json)
    (db : Db)
    → find_where (is_for key) db.records ≡ found
    → Recorded key (perform found id job_id key answer db)
unfolding perform record_again new_record
perform-Recorded found id job_id key none db e = tt
perform-Recorded (some r) id job_id key (some result) db e = (
  record_again result r,
  find_where-update (is_for key) (λ x. x.id == r.id) (record_again result) (λ x. refl) db.records r
      e (==-refl r.id),
  refl,
  refl,
)
perform-Recorded none id job_id key (some result) db e = (
  new_record id job_id key result,
  find_where-insert (is_for key) db.records (new_record id job_id key result) e (eq_refl key),
  refl,
  refl,
)

recall-Recorded :
    (found : Option IdempotencyRecord) (id job_id : Uuid) (key : String) (answer : Option Json)
    (db : Db)
    → find_where (is_for key) db.records ≡ found
    → Recorded key (recall found id job_id key answer db)
unfolding recall
recall-Recorded none id job_id key answer db e = perform-Recorded none id job_id key answer db e
recall-Recorded (some r) id job_id key answer db e =
    elim (Bool-cases (str_eq r.status "completed")) [
      | inl done ↦ rw done tt
      | inr open_yet ↦ rw open_yet (perform-Recorded (some r) id job_id key answer db e)
    ]

-- After an operation has been performed, a further call for it that finds the same record under its
-- key, whatever else has changed, does not perform it and gives the same answer.
pub performed_once :
    (id id' job_id job_id' : Uuid) (key : String) (answer answer' : Option Json) (result : Json)
    (db db' later : Db)
    → execute_idempotent_operation id job_id key answer db ≡ performed result db'
    → find_where (is_for key) later.records ≡ find_where (is_for key) db'.records
    → execute_idempotent_operation id' job_id' key answer' later ≡ skipped result
unfolding execute_idempotent_operation recall
performed_once id id' job_id job_id' key answer answer' result db db' later done seen =
    let (r, found, completed, payload) =
      rw done at
        (recall-Recorded (find_where (is_for key) db.records) id job_id key answer db refl) in
    rw (seen, found, recall, completed, payload) refl
