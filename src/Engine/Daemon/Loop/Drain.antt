-- ===== src/Engine/Daemon/Loop/Drain.antt =====
-- A stopped worker comes to its end: the loop is left and the jobs that run are finished.
use job_schedular.Prelude.{
  ℕ, zero, suc, ◌+◌, ◌≤◌, ◌<◌, ◌≡◌, refl, sym, subst, ◌⊎◌, inl, inr, arith, Bool, true, false,
  Option, none, some, List, [], ◌∷◌, length, Bool-cases, any_where, ◌==◌, ==-refl, All,
}
use job_schedular.Model.{Uuid}
use job_schedular.Engine.Daemon.Loop.{
  Phase, at_test, waiting, polling, asleep, recovering, exited, Loop, Event, test_running, acquired,
  claimed, found_nothing, poll_failed, woke, cancelled, finished, stopped, started, remove_task,
  loop_event, cancel_in, finish, advance, run,
}
use job_schedular.Engine.Daemon.Loop.Permits.{
  at, IsAccounted, Gives, Gives-some, run-Gives, length-remove_task, advance-IsAccounted,
  run-IsAccounted,
}

-- how far a phase is from the end, when the loop is stopped
abbrev distance : Phase → ℕ
distance polling = 4
distance asleep = 2
distance recovering = 2
distance at_test = 1
distance waiting = 1
distance exited = 0

abbrev pub measure : Loop → ℕ
measure s = distance s.phase + length s.active

-- every event but the signal to stop
abbrev pub is_progress : Event → Bool
is_progress stopped = false
is_progress _ = true

abbrev pub IsDrained : Loop → Type 0
IsDrained s = (s.phase ≡ exited) × (s.active ≡ [])

-- Stopped, and nearer to the end.
abbrev Nears : ℕ → Loop → Type 0
Nears m s = (s.is_running ≡ false) × (suc (measure s) ≤ m)

loop_event-Nears :
    (p : ℕ) (a : List Uuid) (phase : Phase) (e : Event)
    → Gives (Nears (measure (at false p a phase))) (loop_event phase e (at false p a phase))
loop_event-Nears p a at_test test_running = (refl, omega arith)
loop_event-Nears zero a waiting acquired = tt
loop_event-Nears (suc n) a waiting acquired = (refl, omega arith)
loop_event-Nears p a polling (claimed id) = (refl, omega arith)
loop_event-Nears p a polling found_nothing = (refl, omega arith)
loop_event-Nears p a polling poll_failed = (refl, omega arith)
loop_event-Nears p a asleep woke = (refl, omega arith)
loop_event-Nears p a recovering woke = (refl, omega arith)
loop_event-Nears p a _ _ = tt

cancel-Nears :
    (p : ℕ) (a : List Uuid) (phase : Phase)
    → Gives (Nears (measure (at false p a phase))) (cancel_in phase (at false p a phase))
cancel-Nears p a at_test = tt
cancel-Nears p a exited = tt
cancel-Nears p a waiting = (refl, omega arith)
cancel-Nears p a polling = (refl, omega arith)
cancel-Nears p a asleep = (refl, omega arith)
cancel-Nears p a recovering = (refl, omega arith)

finish-Nears :
    (p : ℕ) (a : List Uuid) (phase : Phase) (id : Uuid)
    → Gives (Nears (measure (at false p a phase))) (finish id (at false p a phase))
unfolding remove_task
finish-Nears p a phase id = elim (Bool-cases (any_where (λ x. x == id) a)) [
  | inl busy ↦ let less = length-remove_task id a busy in rw busy (refl, omega (arith, less))
  | inr idle ↦ rw idle tt
]

advance-Nears :
    (p : ℕ) (a : List Uuid) (phase : Phase) (e : Event)
    → is_progress e ≡ true
    → Gives (Nears (measure (at false p a phase))) (advance e (at false p a phase))
unfolding advance
advance-Nears p a phase (finished id) h = finish-Nears p a phase id
advance-Nears p a phase stopped h = absurd (cc)
advance-Nears p a phase cancelled h = cancel-Nears p a phase
advance-Nears p a phase e h = loop_event-Nears p a phase e

-- From a state whose flag is cleared a run without further signals is as long as it gets nearer.
run-measure :
    (es : List Event) (s : Loop)
    → s.is_running ≡ false
    → All (λ e. is_progress e ≡ true) es
    → Gives (λ s'. (s'.is_running ≡ false) × (length es + measure s' ≤ measure s)) (run es s)
unfolding run
run-measure [] s stopped_s h = (stopped_s, omega arith)
run-measure (e ∷ es) s stopped_s h =
    go (advance e s)
      (subst (λ r. Gives (Nears (measure s)) (advance e (at r s.permits s.active s.phase)))
        (sym stopped_s) (advance-Nears s.permits s.active s.phase e h.0))
      (λ next off. run-measure es next off h.1)
  where
    Shorter : ℕ → ℕ → Loop → Type 0
    Shorter n m s' = (s'.is_running ≡ false) × (n + measure s' ≤ m)

    go :
        (o : Option Loop)
        → Gives (Nears (measure s)) o
        → ((next : Loop)
            → next.is_running ≡ false
            → Gives (Shorter (length es) (measure next)) (run es next))
        → Gives
            (Shorter (suc (length es)) (measure s))
            (elim o [ none ↦ none | some next ↦ run es next ])
    go none g rest = tt
    go (some next) g rest = farther (run es next) (rest next g.0)
      where
        farther :
            (o' : Option Loop)
            → Gives (Shorter (length es) (measure next)) o'
            → Gives (Shorter (suc (length es)) (measure s)) o'
        farther none q = tt
        farther (some s') q = (q.0, omega (arith, g.1))

finish_head :
    (p : ℕ) (x : Uuid) (xs : List Uuid) (phase : Phase)
    → advance (finished x) (at false p (x ∷ xs) phase) ≡ some (at false (suc p) xs phase)
unfolding advance any_where remove_task
finish_head p x xs phase = rw (==-refl x) refl

-- What can still happen to a stopped loop that is not drained.
can_go_on :
    (c : ℕ) (p : ℕ) (a : List Uuid) (phase : Phase)
    → 0 < c
    → IsAccounted c (at false p a phase)
    → IsDrained (at false p a phase)
      ⊎ ((e : Event) × (next : Loop) × (is_progress e ≡ true)
          × (advance e (at false p a phase) ≡ some next))
unfolding advance
can_go_on c p a at_test h k = inr (test_running, _, refl, refl)
can_go_on c p a polling h k = inr (found_nothing, _, refl, refl)
can_go_on c p a asleep h k = inr (woke, _, refl, refl)
can_go_on c p a recovering h k = inr (woke, _, refl, refl)
can_go_on c p [] exited h k = inl (refl, refl)
can_go_on c p (x ∷ xs) exited h k = inr (finished x, _, refl, finish_head p x xs exited)
can_go_on c (suc n) a waiting h k = inr (acquired, _, refl, refl)
can_go_on c zero [] waiting h k = absurd (ground arith)
can_go_on c zero (x ∷ xs) waiting h k = inr (finished x, _, refl, finish_head zero x xs waiting)

measure-bound : (c : ℕ) (s : Loop) → length s.active ≤ c → measure s ≤ c + 4
measure-bound c s h = ends s.phase
  where
    ends : (phase : Phase) → distance phase + length s.active ≤ c + 4
    ends at_test = omega arith
    ends waiting = omega arith
    ends polling = omega arith
    ends asleep = omega arith
    ends recovering = omega arith
    ends exited = omega arith

-- Let a worker with at least one permit have run in any way, and then be told to stop. Of what
-- happens from there at most `concurrency + 4` events follow, and as long as the loop is not left
-- or a job still runs, another event can come: so the worker is drained in the end.
pub stopped_loop_drains :
    (concurrency : ℕ) (before after : List Event) (s s' : Loop)
    → 0 < concurrency
    → run before (started concurrency) ≡ some s
    → s.is_running ≡ false
    → All (λ e. is_progress e ≡ true) after
    → run after s ≡ some s'
    → (length after ≤ concurrency + 4)
      × (((s'.phase ≡ exited) × (s'.active ≡ []))
          ⊎ ((e : Event) × (next : Loop) × (is_progress e ≡ true) × (advance e s' ≡ some next)))
stopped_loop_drains c before after s s' h e off progress e' =
    let accounted = run-IsAccounted c before s e in
    let shorter = Gives-some _ _ s' e' (run-measure after s off progress) in
    let still : IsAccounted c s' =
      Gives-some (IsAccounted c) _ s' e'
        (run-Gives (IsAccounted c) (advance-IsAccounted c) after s accounted) in
    let bound = measure-bound c s accounted.0 in
    (
      omega (arith, shorter.1, bound),
      subst
          (λ r.
            IsDrained s'
            ⊎ ((f : Event) × (next : Loop) × (is_progress f ≡ true)
                × (advance f (at r s'.permits s'.active s'.phase) ≡ some next)))
          (sym shorter.0) (can_go_on c s'.permits s'.active s'.phase h still),
    )
