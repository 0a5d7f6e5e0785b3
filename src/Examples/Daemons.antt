-- ===== src/Examples/Daemons.antt =====
-- The theorems on the background processes, at concrete inputs.
use job_schedular.Prelude.{◌≤◌, true, false, some, List, [], ◌∷◌, ◌≡◌, refl, length}
use job_schedular.Daemons.Loop.{
  Daemon, Stage, Signal, begins, commits, fails, wakes, start, proceed, proceed_all, has_ended,
  to_pass, failing_daemon_goes_on,
}

-- a pass that fails, and one that fails after its commit
abbrev bad_night : List Signal
bad_night = begins ∷ fails ∷ wakes ∷ commits ∷ fails ∷ []

abbrev resting : Daemon
resting = record { is_running = true; stage = Stage.asleep }

bad_night_test : proceed_all bad_night start ≡ some resting
unfolding proceed_all proceed start
bad_night_test = refl

failing_daemon_goes_on_example :
    (resting.is_running ≡ true)
    × (has_ended resting.stage ≡ false)
    × (length (to_pass resting.stage) ≤ 2)
    × ((after : Daemon) × (proceed_all (to_pass resting.stage) resting ≡ some after)
        × (after.stage ≡ Stage.working))
failing_daemon_goes_on_example =
    failing_daemon_goes_on bad_night resting (refl, (refl, (refl, (refl, (refl, tt)))))
      bad_night_test
