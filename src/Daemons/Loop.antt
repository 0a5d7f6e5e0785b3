-- ===== src/Daemons/Loop.antt =====
-- The loops of the background processes: `start`, `stop` and `_…_loop` of worker/app/heartbeat.py,
-- reaper.py, promoter.py and cron.py, which are alike. Each event is what ends one `await` of the
-- task, so events may come in any order that the loop allows.
use job_schedular.Prelude.{
  ◌≤◌, Bool, true, false, Option, none, some, List, [], ◌∷◌, ◌≡◌, refl, ap, arith, length,
  if◌then◌else◌, All, Option-cases, inl, inr,
}

-- Where the task stands: created and not run yet, in a pass before its commit, in a pass after it,
-- asleep, or at its end.
pub data Stage : Type 0 where
  created working committed asleep ended : Stage

pub record Daemon : Type 0 where
  pub is_running : Bool
  pub stage : Stage

pub data Signal : Type 0 where
  begins commits returns fails wakes stops : Signal

unfoldable pub start : Daemon
start = record { is_running = true; stage = Stage.created }

-- while self.is_running
abbrev test : Daemon → Daemon
test d = record d { stage = if d.is_running then Stage.working else Stage.ended }

-- `stop` clears the flag and cancels the task: a task that has not run yet never runs, one in a
-- pass leaves the loop by `break`, and one asleep by the exception.
unfoldable pub stop : Daemon → Daemon
stop d = record { is_running = false; stage = Stage.ended }

-- What ends an `await`, by where the task stands. A pass that has nothing to do may return without
-- a commit, and after the commit the broadcast may fail still; a failure is logged.
abbrev step : Stage → Signal → Daemon → Option Daemon
step Stage.created begins d = some (test d)
step Stage.working commits d = some (record d { stage = Stage.committed })
step Stage.working returns d = some (record d { stage = Stage.asleep })
step Stage.working fails d = some (record d { stage = Stage.asleep })
step Stage.committed returns d = some (record d { stage = Stage.asleep })
step Stage.committed fails d = some (record d { stage = Stage.asleep })
step Stage.asleep wakes d = some (test d)
step _ _ d = none

-- The state after the event, `none` where it cannot come.
unfoldable pub proceed : Signal → Daemon → Option Daemon
unfolding stop
proceed stops d = some (stop d)
proceed e d = step d.stage e d

unfoldable pub proceed_all : List Signal → Daemon → Option Daemon
unfolding proceed
proceed_all [] d = some d
proceed_all (e ∷ es) d = elim (proceed e d) [ none ↦ none | some next ↦ proceed_all es next ]

abbrev pub is_stop : Signal → Bool
is_stop stops = true
is_stop begins = false
is_stop commits = false
is_stop returns = false
is_stop fails = false
is_stop wakes = false

abbrev pub has_ended : Stage → Bool
has_ended Stage.ended = true
has_ended Stage.created = false
has_ended Stage.working = false
has_ended Stage.committed = false
has_ended Stage.asleep = false

-- running, and not at its end
abbrev IsUp : Daemon → Type 0
IsUp d = (d.is_running ≡ true) × (has_ended d.stage ≡ false)

step-IsUp :
    (p : Stage) (e : Signal) (d next : Daemon)
    → d.is_running ≡ true
    → step p e d ≡ some next
    → IsUp next
step-IsUp p e d next up moved = ground arith

proceed-IsUp :
    (e : Signal) (d next : Daemon)
    → is_stop e ≡ false
    → IsUp d
    → proceed e d ≡ some next
    → IsUp next
unfolding proceed
proceed-IsUp stops d next other up moved = cc
proceed-IsUp begins d next other up moved = step-IsUp d.stage begins d next up.0 moved
proceed-IsUp commits d next other up moved = step-IsUp d.stage commits d next up.0 moved
proceed-IsUp returns d next other up moved = step-IsUp d.stage returns d next up.0 moved
proceed-IsUp fails d next other up moved = step-IsUp d.stage fails d next up.0 moved
proceed-IsUp wakes d next other up moved = step-IsUp d.stage wakes d next up.0 moved

proceed_all-IsUp :
    (es : List Signal) (d last : Daemon)
    → All (λ e. is_stop e ≡ false) es
    → IsUp d
    → proceed_all es d ≡ some last
    → IsUp last
unfolding proceed_all
proceed_all-IsUp [] d last others up ran = let same : d ≡ last = cc ran in rw same at up
proceed_all-IsUp (e ∷ es) d last others up ran = elim (Option-cases (proceed e d)) [
  | inl stuck ↦ absurd (none≢some (rw (stuck, proceed_all) at ran))
  | inr (next, moved) ↦
      proceed_all-IsUp es next last others.1 (proceed-IsUp e d next others.0 up moved)
        (rw (moved, proceed_all) at ran)
]
  where
    none≢some : none ≡ some last → ⊥
    none≢some q = cc

-- What leads from here to the next pass, if every pass fails.
abbrev pub to_pass : Stage → List Signal
to_pass Stage.created = begins ∷ []
to_pass Stage.working = []
to_pass Stage.committed = fails ∷ wakes ∷ []
to_pass Stage.asleep = wakes ∷ []
to_pass Stage.ended = []

goes_on_from :
    (p : Stage) (d : Daemon)
    → d.is_running ≡ true
    → d.stage ≡ p
    → has_ended p ≡ false
    → (after : Daemon) × (proceed_all (to_pass p) d ≡ some after) × (after.stage ≡ Stage.working)
unfolding proceed_all proceed
goes_on_from Stage.created d up here live =
    (record { is_running = true; stage = Stage.working }, ground arith, refl)
goes_on_from Stage.working d up here live = (d, refl, here)
goes_on_from Stage.committed d up here live =
    (record { is_running = true; stage = Stage.working }, ground arith, refl)
goes_on_from Stage.asleep d up here live =
    (record { is_running = true; stage = Stage.working }, ground arith, refl)
goes_on_from Stage.ended d up here live = cc

-- Whatever happens to a background process, in whatever order its passes fail or return, as long as
-- it is not told to stop: it is still running, it has not left its loop, and two events at most
-- bring it into a pass, also when the pass that it is in fails.
pub failing_daemon_goes_on :
    (es : List Signal) (d : Daemon)
    → All (λ e. is_stop e ≡ false) es
    → proceed_all es start ≡ some d
    → (d.is_running ≡ true)
      × (has_ended d.stage ≡ false)
      × (length (to_pass d.stage) ≤ 2)
      × ((after : Daemon) × (proceed_all (to_pass d.stage) d ≡ some after)
          × (after.stage ≡ Stage.working))
unfolding start
failing_daemon_goes_on es d others ran =
    let up = proceed_all-IsUp es start d others (refl, refl) ran in
    (up.0, up.1, short d.stage, goes_on_from d.stage d up.0 refl up.1)
  where
    short : (p : Stage) → length (to_pass p) ≤ 2
    short p = ground arith

-- At its end, only a stop comes, and changes nothing.
abbrev stopped : Daemon
stopped = record { is_running = false; stage = Stage.ended }

proceed-stopped :
    (e : Signal) (next : Daemon)
    → proceed e stopped ≡ some next
    → (is_stop e ≡ true) × (next ≡ stopped)
unfolding proceed
proceed-stopped stops next moved = (refl, cc)
proceed-stopped begins next moved = cc
proceed-stopped commits next moved = cc
proceed-stopped returns next moved = cc
proceed-stopped fails next moved = cc
proceed-stopped wakes next moved = cc

proceed_all-stopped :
    (es : List Signal) (last : Daemon)
    → proceed_all es stopped ≡ some last
    → All (λ e. is_stop e ≡ true) es × (last ≡ stopped)
unfolding proceed_all
proceed_all-stopped [] last ran = (tt, cc)
proceed_all-stopped (e ∷ es) last ran = elim (Option-cases (proceed e stopped)) [
  | inl stuck ↦ absurd (none≢some (rw (stuck, proceed_all) at ran))
  | inr (next, moved) ↦
      let now = proceed-stopped e next moved in
      let rest = proceed_all-stopped es last (rw (moved, proceed_all, now.1) at ran) in
      ((now.0, rest.0), rest.1)
]
  where
    none≢some : none ≡ some last → ⊥
    none≢some q = cc

-- After a stop nothing more happens: what follows it is nothing but further stops, no pass begins
-- and none commits, and the process is at its end.
pub stopped_daemon_rests :
    (es : List Signal) (d last : Daemon)
    → proceed_all (stops ∷ es) d ≡ some last
    → All (λ e. is_stop e ≡ true) es × (last.is_running ≡ false) × (last.stage ≡ Stage.ended)
unfolding proceed_all proceed stop
stopped_daemon_rests es d last ran =
    let rest = proceed_all-stopped es last ran in
    (rest.0, ap (λ d. d.is_running) rest.1, ap (λ d. d.stage) rest.1)
