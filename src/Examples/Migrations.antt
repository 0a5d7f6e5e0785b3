-- ===== src/Examples/Migrations.antt =====
-- The theorems on the revisions of the schema, at concrete schemas.
use job_schedular.Prelude.{[], none, some, ◌≡◌, refl, any_where}
use job_schedular.Migrations.Schema.{
  Schema, run_up, run_down, add_named, alter, add_types, add_if_missing,
}
use job_schedular.Migrations.Downgrades.{
  initial, job_batches, lease_token, idempotency, upgrade, downgrade, downgrade_restores,
}
use job_schedular.Migrations.Types.{initial_only_once}

abbrev empty : Schema
empty = record { tables = []; types = [] }

-- what a chain of revisions makes of the empty database
baseline : (t : Schema) × (run_up (upgrade initial) empty ≡ some t)
unfolding run_up add_named alter add_types any_where
baseline = (_, refl)

initial_taken_back :
    run_down (downgrade initial) baseline.0
    ≡ some (record { tables = []; types = baseline.0.types })
initial_taken_back = downgrade_restores initial empty baseline.0 baseline.1

abbrev taken_back : Schema
taken_back = record { tables = []; types = baseline.0.types }

initial_only_once_example : run_up (upgrade initial) taken_back ≡ none
initial_only_once_example =
    initial_only_once empty baseline.0 (record { tables = []; types = baseline.0.types }) baseline.1
      initial_taken_back

-- The whole chain can be applied, and the lease tokens and the batches come on top of the first two.
head_test :
    (s : Schema) × (t : Schema) × (u : Schema) × (run_up (upgrade idempotency) baseline.0 ≡ some s)
    × (run_up (upgrade lease_token) s ≡ some t)
    × (run_up (upgrade job_batches) t ≡ some u)
unfolding baseline run_up add_named alter add_types add_if_missing any_where
head_test = (_, _, _, refl, refl, refl)
