-- ===== src/Migrations/Downgrades.antt =====
-- What the downgrades of the revisions take back, and what they leave.
use job_schedular.Prelude.{some, List, ◌≡◌, refl, sym, ap, ◌∙◌}
use job_schedular.Migrations.Schema.{EnumType, Schema, Up, Down, without_type, run_up, run_down}
use job_schedular.Migrations.Undo.{undo_all, types_after, run-undo}
use job_schedular.Migrations.Revisions.{
  upgrade_initial, downgrade_initial, upgrade_idempotency, downgrade_idempotency,
  upgrade_lease_token, downgrade_lease_token, upgrade_job_batches, downgrade_job_batches,
}

-- The chain of revisions, oldest first.
pub data Revision : Type 0 where
  initial idempotency lease_token job_batches : Revision

abbrev pub upgrade : Revision → List Up
upgrade initial = upgrade_initial
upgrade idempotency = upgrade_idempotency
upgrade lease_token = upgrade_lease_token
upgrade job_batches = upgrade_job_batches

abbrev pub downgrade : Revision → List Down
downgrade initial = downgrade_initial
downgrade idempotency = downgrade_idempotency
downgrade lease_token = downgrade_lease_token
downgrade job_batches = downgrade_job_batches

-- the types that a downgrade leaves of those that it finds
abbrev pub types_left : Revision → List EnumType → List EnumType
types_left initial types = types
types_left idempotency types = types
types_left lease_token types = types
types_left job_batches types = without_type "batch_status" types

downgrade-undo : (r : Revision) → downgrade r ≡ undo_all (upgrade r)
downgrade-undo initial = refl
downgrade-undo idempotency = refl
downgrade-undo lease_token = refl
downgrade-undo job_batches = refl

types_left-after :
    (r : Revision) (types : List EnumType) → types_after (downgrade r) types ≡ types_left r types
types_left-after initial types = refl
types_left-after idempotency types = refl
types_left-after lease_token types = refl
types_left-after job_batches types = refl

-- On whatever schema the upgrade of a revision succeeds, its downgrade succeeds on what the upgrade
-- gives, and leads back to the tables that were there, with their columns, constraints and indexes
-- in the same order. Of the types, that of batches is dropped, and all others stay.
pub downgrade_restores :
    (r : Revision) (s t : Schema)
    → run_up (upgrade r) s ≡ some t
    → run_down (downgrade r) t ≡ some (record { tables = s.tables; types = types_left r t.types })
downgrade_restores r s t h = rw (downgrade-undo r) (
    run-undo (upgrade r) s t t.types h
    ∙ ap (λ types. some (record s { types = types }))
        (ap (λ os. types_after os t.types) (sym (downgrade-undo r)) ∙ types_left-after r t.types))
