-- ===== src/Engine/SideEffects.antt =====
-- worker/app/engine/context.py: external side effects, made once per job and operation. `key` is
-- the text `job:<job_id>:op:<operation>`. The records are those that the session sees; they are
-- committed with the end of the execution.
pub mod Once
use job_schedular.Prelude.{
  ℕ, String, Bool, Option, none, some, [], ◌∷◌, ◌++◌, if◌then◌else◌, str_eq, ◌==◌, or_else,
  find_where, update_where,
}
use job_schedular.Model.{Uuid, Json, IdempotencyRecord, Db}

-- How a call ends: with the answer of an earlier one, with that of the operation, or with the
-- exception that the operation raised.
pub data Effect : Type 0 where
  skipped : Json → Effect
  performed : Json → Db → Effect
  failed : Effect

unfoldable pub record_again : Json → IdempotencyRecord → IdempotencyRecord
record_again result r = record r { status = "completed"; response_payload = some result }

unfoldable pub new_record : Uuid → Uuid → String → Json → IdempotencyRecord
new_record id job_id key result = record {
  id = id;
  job_id = some job_id;
  key = key;
  scope = "external_side_effect";
  status = "completed";
  response_payload = some result;
}

abbrev pub is_for : String → IdempotencyRecord → Bool
is_for key r = str_eq r.key key

-- `answer` is what `await func()` gives, or `none` where it raises.
unfoldable pub perform : Option IdempotencyRecord → Uuid → Uuid → String → Option Json → Db → Effect
unfolding record_again new_record
perform found id job_id key none db = failed
perform (some r) id job_id key (some result) db =
    performed result
      (record db { records = update_where (λ x. x.id == r.id) (record_again result) db.records })
perform none id job_id key (some result) db =
    performed result (record db { records = db.records ++ new_record id job_id key result ∷ [] })

-- An empty payload is falsy: `record.response_payload or {}`.
unfoldable pub recall : Option IdempotencyRecord → Uuid → Uuid → String → Option Json → Db → Effect
unfolding perform
recall none id job_id key answer db = perform none id job_id key answer db
recall (some r) id job_id key answer db =
    if str_eq r.status "completed"
    then skipped (or_else r.response_payload "{}")
    else perform (some r) id job_id key answer db

unfoldable pub execute_idempotent_operation : Uuid → Uuid → String → Option Json → Db → Effect
unfolding recall
execute_idempotent_operation id job_id key answer db =
    recall (find_where (is_for key) db.records) id job_id key answer db
