-- ===== src/Engine/Daemon/Loop/Permits.antt =====
-- The semaphore of the polling loop: no more jobs run than the worker has permits.
use job_schedular.Prelude.{
  ℕ, zero, suc, ◌+◌, ◌≤◌, ◌≡◌, ◌⊎◌, inl, inr, arith, Bool, true, false, Option, none, some, List,
  [], ◌∷◌, length, Bool-cases, any_where, ◌==◌,
}
use job_schedular.Model.{Uuid}
use job_schedular.Engine.Daemon.Loop.{
  Phase, at_test, waiting, polling, asleep, recovering, exited, Loop, Event, test_running, acquired,
  claimed, found_nothing, poll_failed, woke, cancelled, finished, stopped, started, remove_task,
  loop_event, cancel_in, finish, advance, run,
}

-- the permit that the loop itself holds
abbrev pub held : Phase → ℕ
held polling = 1
held _ = 0

abbrev pub account : Loop → ℕ
account s = s.permits + length s.active + held s.phase

-- `Q` holds of the state after the event, if the event can come.
abbrev pub Gives : (Loop → Type 0) → Option Loop → Type 0
Gives Q none = Unit
Gives Q (some s) = Q s

-- Every permit is accounted for; a loop that was cancelled in its sleep has one too many, and no
-- longer polls.
abbrev pub IsAccounted : ℕ → Loop → Type 0
IsAccounted c s =
    (length s.active ≤ c) × ((account s ≡ c) ⊎ ((s.phase ≡ exited) × (account s ≡ c + 1)))

pub length-remove_task :
    (id : Uuid) (xs : List Uuid)
    → any_where (λ x. x == id) xs ≡ true
    → suc (length (remove_task id xs)) ≡ length xs
unfolding any_where remove_task
length-remove_task id [] h = absurd (cc)
length-remove_task id (x ∷ xs) h = ground (arith, length-remove_task id xs)

abbrev pub at : Bool → ℕ → List Uuid → Phase → Loop
at r p a phase = record { is_running = r; permits = p; active = a; phase = phase }

module _ (c : ℕ) (a : List Uuid) where
  cancel-IsAccounted :
      (r : Bool) (p : ℕ) (phase : Phase)
      → IsAccounted c (at r p a phase)
      → Gives (IsAccounted c) (cancel_in phase (at r p a phase))
  cancel-IsAccounted r p at_test h = tt
  cancel-IsAccounted r p exited h = tt
  cancel-IsAccounted r p waiting h = ground arith
  cancel-IsAccounted r p polling h = ground arith
  cancel-IsAccounted r p asleep h = ground arith
  cancel-IsAccounted r p recovering h = ground arith

  loop_event-IsAccounted :
      (r : Bool) (p : ℕ) (phase : Phase) (e : Event)
      → IsAccounted c (at r p a phase)
      → Gives (IsAccounted c) (loop_event phase e (at r p a phase))
  loop_event-IsAccounted true p at_test test_running h = ground arith
  loop_event-IsAccounted false p at_test test_running h = ground arith
  loop_event-IsAccounted r zero waiting acquired h = tt
  loop_event-IsAccounted true (suc n) waiting acquired h = ground arith
  loop_event-IsAccounted false (suc n) waiting acquired h = ground arith
  loop_event-IsAccounted r p polling (claimed id) h = ground arith
  loop_event-IsAccounted r p polling found_nothing h = ground arith
  loop_event-IsAccounted r p polling poll_failed h = ground arith
  loop_event-IsAccounted r p asleep woke h = ground arith
  loop_event-IsAccounted r p recovering woke h = ground arith
  loop_event-IsAccounted r p _ _ h = tt

finish-IsAccounted :
    (c : ℕ) (s : Loop) (id : Uuid) → IsAccounted c s → Gives (IsAccounted c) (finish id s)
unfolding remove_task
finish-IsAccounted c s id h = elim (Bool-cases (any_where (λ x. x == id) s.active)) [
  | inl busy ↦ let less = length-remove_task id s.active busy in rw busy (ground arith)
  | inr idle ↦ rw idle tt
]

pub advance-IsAccounted :
    (c : ℕ) (e : Event) (s : Loop) → IsAccounted c s → Gives (IsAccounted c) (advance e s)
unfolding advance
advance-IsAccounted c (finished id) s h = finish-IsAccounted c s id h
advance-IsAccounted c stopped s h = h
advance-IsAccounted c cancelled s h = cancel-IsAccounted c s.active s.is_running s.permits s.phase h
advance-IsAccounted c e s h = loop_event-IsAccounted c s.active s.is_running s.permits s.phase e h

-- What every event keeps, every run keeps.
pub run-Gives :
    (Q : Loop → Type 0)
    → ((e : Event) (s : Loop) → Q s → Gives Q (advance e s))
    → (es : List Event) (s : Loop) → Q s
    → Gives Q (run es s)
unfolding run
run-Gives Q keep [] s q = q
run-Gives Q keep (e ∷ es) s q = go (advance e s) (keep e s q) (λ next. run-Gives Q keep es next)
  where
    go :
        (o : Option Loop)
        → Gives Q o
        → ((next : Loop) → Q next → Gives Q (run es next))
        → Gives Q (elim o [ none ↦ none | some next ↦ run es next ])
    go none g rest = tt
    go (some next) g rest = rest next g

pub Gives-some : (Q : Loop → Type 0) (o : Option Loop) (s : Loop) → o ≡ some s → Gives Q o → Q s
Gives-some Q o s e g = rw e at g

-- Whatever happens to a worker with `concurrency` permits, and in any order: no more jobs than
-- that run at once, and the permits that are left, those of the running jobs and the one that the
-- loop holds are `concurrency`, or one more in a loop that was cancelled and polls no longer.
pub run-IsAccounted :
    (concurrency : ℕ) (es : List Event) (s : Loop)
    → run es (started concurrency) ≡ some s
    → (length s.active ≤ concurrency)
      × ((account s ≡ concurrency) ⊎ ((s.phase ≡ exited) × (account s ≡ concurrency + 1)))
unfolding started
run-IsAccounted concurrency es s e = Gives-some (IsAccounted concurrency) _ s e (
    run-Gives (IsAccounted concurrency) (advance-IsAccounted concurrency) es _
      (omega arith, inl (omega arith)))
