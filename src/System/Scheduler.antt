-- ===== src/System/Scheduler.antt =====
-- worker/scheduler_main.py: the process of the reaper, the cron dispatcher and the promoter, each a
-- task of its own on the one database that the rest of the system writes, too.
use job_schedular.Prelude.{String, Bool, true, false, ◌&&◌, none, some, ◌≡◌, refl}
use job_schedular.Model.{Uuid, Time, Db}
use job_schedular.Daemons.Loop.{
  Daemon, Signal, begins, commits, returns, fails, wakes, stops, start, stop, proceed,
}
use job_schedular.Daemons.Reaper.{reap_expired_leases, expired_jobs}
use job_schedular.Daemons.Cron.{dispatch_due_schedules}
use job_schedular.Daemons.Promoter.{promote_due_jobs}
use job_schedular.System.{Step, reaps, promotes, dispatches, others, Reach, here, next}

pub record Scheduler : Type 0 where
  pub reaper : Daemon
  pub cron : Daemon
  pub promoter : Daemon
  pub db : Db

-- main, up to its own loop
unfoldable pub begin_main : Db → Scheduler
unfolding start
begin_main db = record { reaper = start; cron = start; promoter = start; db = db }

-- while reaper.is_running and cron.is_running and promoter.is_running
abbrev pub main_goes_on : Scheduler → Bool
main_goes_on s = s.reaper.is_running && s.cron.is_running && s.promoter.is_running

-- shutdown; an event may come between any two of the three
abbrev pub shut : Scheduler → Scheduler
shut s = record s { reaper = stop s.reaper; cron = stop s.cron; promoter = stop s.promoter }

abbrev is_commit : Signal → Bool
is_commit commits = true
is_commit begins = false
is_commit returns = false
is_commit fails = false
is_commit wakes = false
is_commit stops = false

-- What may happen next: an event of one of the tasks, which writes the database where it is the
-- commit of its pass, or a transaction of another process. `read` is the database that a sweep has
-- read.
module _ (Allowed : Uuid → Bool) (next_fire : String → Time → Time) (key : Uuid → Time → String)
    (tag : Uuid → String) where
  pub data Happens : Scheduler → Scheduler → Type 1 where
    reaper_moves :
        (e : Signal) (s : Scheduler) (d : Daemon)
        → is_commit e ≡ false
        → proceed e s.reaper ≡ some d
        → Happens s (record s { reaper = d })
    cron_moves :
        (e : Signal) (s : Scheduler) (d : Daemon)
        → is_commit e ≡ false
        → proceed e s.cron ≡ some d
        → Happens s (record s { cron = d })
    promoter_moves :
        (e : Signal) (s : Scheduler) (d : Daemon)
        → is_commit e ≡ false
        → proceed e s.promoter ≡ some d
        → Happens s (record s { promoter = d })
    reaper_commits :
        (now : Time) (new_id : Uuid → Uuid) (read : Db) (s : Scheduler) (d : Daemon)
        → proceed commits s.reaper ≡ some d
        → Happens s (record s { reaper = d; db = (reap_expired_leases now new_id read s.db).1 })
    cron_commits :
        (now : Time) (locked : Uuid → Bool) (new_id : Uuid → Uuid) (s : Scheduler) (d : Daemon)
        → proceed commits s.cron ≡ some d
        → Happens s (record s {
          cron = d;
          db = (dispatch_due_schedules next_fire key tag none now locked new_id s.db).1;
        })
    promoter_commits :
        (now : Time) (locked : Uuid → Bool) (s : Scheduler) (d : Daemon)
        → proceed commits s.promoter ≡ some d
        → Happens s (record s { promoter = d; db = (promote_due_jobs none now 100 locked s.db).1 })
    elsewhere :
        (s : Scheduler) (after : Db) → Step Allowed s.db after → Happens s (record s { db = after })

  pub data Runs (s : Scheduler) : Scheduler → Type 1 where
    at_first : Runs s s
    then : {t u : Scheduler} → Runs s t → Happens t u → Runs s u

  sweeps :
      (now : Time) (new_id : Uuid → Uuid) (read db mid : Db)
      → Reach Allowed db mid
      → Reach Allowed db (reap_expired_leases now new_id read mid).1
  unfolding reap_expired_leases
  sweeps now new_id read db mid r =
      next (next r (others mid _ refl)) (reaps now new_id (expired_jobs now read) _)

  Happens-Reach :
      {s t : Scheduler} (db : Db) → Reach Allowed db s.db → Happens s t → Reach Allowed db t.db
  Happens-Reach db r (reaper_moves e s d no_commit moved) = r
  Happens-Reach db r (cron_moves e s d no_commit moved) = r
  Happens-Reach db r (promoter_moves e s d no_commit moved) = r
  Happens-Reach db r (reaper_commits now new_id read s d moved) = sweeps now new_id read db s.db r
  Happens-Reach db r (cron_commits now locked new_id s d moved) =
      next r (dispatches next_fire key tag none now locked new_id s.db)
  Happens-Reach db r (promoter_commits now locked s d moved) =
      next r (promotes none now 100 locked s.db)
  Happens-Reach db r (elsewhere s after st) = next r st

  -- Whatever happens in and around the process of the daemons, with passes that fail before or
  -- after their commit and with a shutdown at any moment, the database goes from one state to the
  -- next by steps of the system: what holds in every run of the system holds with this process.
  pub scheduler-Reach : (db : Db) (s : Scheduler) → Runs (begin_main db) s → Reach Allowed db s.db
  unfolding begin_main
  scheduler-Reach db s at_first = here
  scheduler-Reach db s (then r h) = Happens-Reach db (scheduler-Reach db _ r) h

  -- A shutdown may come at any moment: it takes every task to its end, and the loop of `main` with
  -- them.
  shut-Runs : (s : Scheduler) → Runs s (shut s) × (main_goes_on (shut s) ≡ false)
  unfolding proceed stop
  shut-Runs s = (
    then
        (then (then at_first (reaper_moves stops s (stop s.reaper) refl refl))
          (cron_moves stops (record s { reaper = stop s.reaper }) (stop s.cron) refl refl))
        (promoter_moves stops (record s { reaper = stop s.reaper; cron = stop s.cron })
          (stop s.promoter) refl refl),
    refl,
  )
