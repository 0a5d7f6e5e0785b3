-- ===== src/Engine/Daemon/Loop.antt =====
-- The polling loop and its tasks in worker/app/engine/daemon.py: `start`,
-- `_execute_with_semaphore` and the flag that `stop` clears. Each event is what ends one `await`,
-- so events may come in any order that the loop allows.
pub mod Permits
pub mod Drain
use job_schedular.Prelude.{
  ℕ, zero, suc, ◌+◌, Bool, true, false, Option, none, some, List, [], ◌∷◌, if◌then◌else◌, ◌==◌,
  any_where,
}
use job_schedular.Model.{Uuid}

-- Where the loop stands: at its test, waiting for a permit, polling with one, asleep after a poll
-- without a job or after one that failed, or left.
pub data Phase : Type 0 where
  at_test waiting polling asleep recovering exited : Phase

pub record Loop : Type 0 where
  pub is_running : Bool
  pub permits : ℕ
  pub active : List Uuid
  pub phase : Phase

pub data Event : Type 0 where
  test_running : Event
  acquired : Event
  claimed : Uuid → Event
  found_nothing : Event
  poll_failed : Event
  woke : Event
  cancelled : Event
  finished : Uuid → Event
  stopped : Event

unfoldable pub started : ℕ → Loop
started concurrency = record {
  is_running = true;
  permits = concurrency;
  active = [];
  phase = Phase.at_test;
}

abbrev release : Phase → Loop → Loop
release phase s = record s { permits = suc s.permits; phase = phase }

-- one task of that job less
unfoldable pub remove_task : Uuid → List Uuid → List Uuid
remove_task id [] = []
remove_task id (x ∷ xs) = let rest = x ∷ remove_task id xs in if x == id then xs else rest

-- `acquire` returns when a permit is left; after a stop the permit is given back.
abbrev take_permit : ℕ → Loop → Option Loop
take_permit zero s = none
take_permit (suc n) s = some (
    if s.is_running
    then record s { permits = n; phase = Phase.polling }
    else record s { phase = Phase.exited })

-- except asyncio.CancelledError: asleep after an empty poll the permit was given back already; at
-- `acquire`, and asleep after a failed poll, the exception leaves the loop as it is.
abbrev cancel_in : Phase → Loop → Option Loop
cancel_in Phase.at_test s = none
cancel_in Phase.waiting s = some (record s { phase = Phase.exited })
cancel_in Phase.polling s = some (release Phase.exited s)
cancel_in Phase.asleep s = some (release Phase.exited s)
cancel_in Phase.recovering s = some (record s { phase = Phase.exited })
cancel_in Phase.exited s = none

abbrev poll_ends : Event → Loop → Option Loop
poll_ends (claimed id) s = some (record s { active = id ∷ s.active; phase = Phase.at_test })
poll_ends found_nothing s = some (release Phase.asleep s)
poll_ends poll_failed s = some (release Phase.recovering s)
poll_ends _ s = none

abbrev loop_event : Phase → Event → Loop → Option Loop
loop_event Phase.at_test test_running s =
    some (record s { phase = if s.is_running then Phase.waiting else Phase.exited })
loop_event Phase.waiting acquired s = take_permit s.permits s
loop_event Phase.polling e s = poll_ends e s
loop_event Phase.asleep woke s = some (record s { phase = Phase.at_test })
loop_event Phase.recovering woke s = some (record s { phase = Phase.at_test })
loop_event _ _ s = none

-- finally: self.semaphore.release()
abbrev finish : Uuid → Loop → Option Loop
finish id s =
    if any_where (λ x. x == id) s.active
    then some (record s { active = remove_task id s.active; permits = suc s.permits })
    else none

-- The state after the event, `none` where it cannot come.
unfoldable pub advance : Event → Loop → Option Loop
unfolding remove_task
advance (finished id) s = finish id s
advance stopped s = some (record s { is_running = false })
advance cancelled s = cancel_in s.phase s
advance e s = loop_event s.phase e s

unfoldable pub run : List Event → Loop → Option Loop
unfolding advance
run [] s = some s
run (e ∷ es) s = elim (advance e s) [ none ↦ none | some next ↦ run es next ]
