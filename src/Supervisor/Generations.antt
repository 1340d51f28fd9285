-- ===== src/Supervisor/Generations.antt =====
-- One generation of tasks (src/main.rs, `run_daemon`).
use web3_pi_ups_service.Prelude.{
  ℕ, ◌+◌, ◌≤◌, ◌≡◌, refl, sym, ap, ◌∙◌, subst, true, false, Option, none, some, List, [], ◌∷◌, ok,
  err, arith,
}
use web3_pi_ups_service.Supervisor.{
  Task, reader, writer, dispatcher, sm, metrics, Phase, resolving, opening, supervising,
  backing_off, exited, panicked, Event, resolved, opened, finished, signalled, slept, Daemon,
  await_handle, go_on, abort, abort_all, spawn_all, supervise, start, Run, at_rest, goes_on,
}

-- The tasks that are alive in each phase: one of each kind while the daemon supervises them,
-- otherwise none.
abbrev pub Alive : Phase → List Task → Type 0
Alive supervising alive = alive ≡ reader ∷ writer ∷ dispatcher ∷ sm ∷ metrics ∷ []
Alive _ alive = alive ≡ []

-- Whether a signal was among the events.
abbrev pub Signalled : List Event → Type 0
Signalled [] = ⊥
Signalled (signalled ∷ es) = Unit
Signalled (_ ∷ es) = Signalled es

-- Whether a task ended by itself.
abbrev pub Finished : List Event → Type 0
Finished [] = ⊥
Finished (finished t ∷ es) = Unit
Finished (_ ∷ es) = Finished es

abbrev is_spawning : Event → ℕ
is_spawning (opened true) = 1
is_spawning _ = 0

-- How often a port was opened, and with it the tasks spawned.
abbrev pub spawned : List Event → ℕ
spawned [] = 0
spawned (e ∷ es) = is_spawning e + spawned es

-- What stands behind a phase, of a signal and of a task that ended by itself.
abbrev pub Because : Phase → Type 0 → Type 0 → Type 0
Because exited signal task = signal × ¬ task
Because panicked signal task = task × ¬ signal
Because _ signal task = (¬ signal) × ¬ task

-- Why the daemon is in a phase.
abbrev pub Accounts : Phase → List Event → Type 0
Accounts phase es = Because phase (Signalled es) (Finished es)

-- How often tasks are still spawned from a phase on.
abbrev budget : Phase → ℕ
budget resolving = 1
budget (opening path) = 1
budget backing_off = 1
budget _ = 0

all_aborted :
    (t : Task)
    → abort_all (some t) (abort t (reader ∷ writer ∷ dispatcher ∷ sm ∷ metrics ∷ [])) ≡ none
unfolding abort_all await_handle
all_aborted reader = refl
all_aborted writer = refl
all_aborted dispatcher = refl
all_aborted sm = refl
all_aborted metrics = refl

abbrev IsGoing : Phase → Type 0
IsGoing exited = ⊥
IsGoing panicked = ⊥
IsGoing _ = Unit

-- The phase that an event leads to.
abbrev Leads : Event → Phase → Type 0
Leads signalled phase = phase ≡ exited
Leads (finished t) phase = phase ≡ panicked
Leads _ phase = IsGoing phase

-- What a step leads to.
abbrev IsKept : Event → Phase → Option Daemon → Type 0
IsKept e phase none = Unit
IsKept e phase (some d) =
    Alive d.phase d.alive × Leads e d.phase × (is_spawning e + budget d.phase ≤ budget phase)

supervise-IsKept :
    (e : Event) (phase : Phase) (alive : List Task)
    → Alive phase alive
    → IsKept e phase (supervise e phase alive)
unfolding supervise abort_all await_handle spawn_all
supervise-IsKept (resolved (ok path)) resolving alive h = (h, tt, omega arith)
supervise-IsKept (resolved (err e)) resolving alive h = (h, tt, omega arith)
supervise-IsKept (opened true) (opening path) alive h = (rw h, tt, omega arith)
supervise-IsKept (opened false) (opening path) alive h = (h, tt, omega arith)
supervise-IsKept (finished t) supervising alive h =
    subst (λ o. IsKept (finished t) supervising o)
      (sym (
        ap (λ l. go_on backing_off (abort_all (some t) (abort t l))) h
        ∙ ap (go_on backing_off) (all_aborted t)))
      (refl, refl, omega arith)
supervise-IsKept signalled supervising alive h =
    subst (λ o. IsKept signalled supervising o) (sym (ap (λ l. go_on exited (abort_all none l)) h))
      (refl, refl, omega arith)
supervise-IsKept slept backing_off alive h = (h, tt, omega arith)
supervise-IsKept signalled backing_off alive h = (h, refl, omega arith)
supervise-IsKept _ _ alive h = tt

step-IsKept :
    (e : Event) (d : Daemon) {next : Daemon}
    → supervise e d.phase d.alive ≡ some next
    → Alive d.phase d.alive
    → IsKept e d.phase (some next)
step-IsKept e d step h = subst (IsKept e d.phase) step (supervise-IsKept e d.phase d.alive h)

going-Accounts : (phase : Phase) → IsGoing phase → Accounts phase []
going-Accounts exited g = absurd g
going-Accounts panicked g = absurd g
going-Accounts _ g = (λ s. s, λ f. f)

-- A phase that no event leads out of.
abbrev IsOver : Phase → Type 0
IsOver phase = (e : Event) (alive : List Task) → supervise e phase alive ≡ none

exited-IsOver : IsOver exited
unfolding supervise
exited-IsOver e alive = ground arith

panicked-IsOver : IsOver panicked
unfolding supervise
panicked-IsOver e alive = ground arith

Run-over :
    {d end : Daemon} {es : List Event}
    → Run d es end
    → IsOver d.phase
    → (es ≡ []) × (end.phase ≡ d.phase) × (end.alive ≡ d.alive)
Run-over at_rest h = (refl, refl, refl)
Run-over {d} (goes_on e step rest) h = cc (step, h e d.alive)

-- What a run from a phase leads to.
abbrev IsAccounted : Phase → List Event → Daemon → Type 0
IsAccounted from es end =
    Alive end.phase end.alive × Accounts end.phase es × (spawned es ≤ budget from)

over-IsAccounted :
    (from phase : Phase) (e : Event) {next end : Daemon} {es : List Event}
    → Run next es end
    → IsOver phase
    → next.phase ≡ phase
    → Alive next.phase next.alive
    → Accounts phase (e ∷ [])
    → is_spawning e ≡ 0
    → IsAccounted from (e ∷ es) end
over-IsAccounted from phase e rest over leads alive accounts unspawning =
    let (no_more, same, still) = Run-over rest (subst IsOver (sym leads) over) in
    rw (no_more, same, still)
      (alive, subst (λ p. Accounts p (e ∷ [])) (sym leads) accounts, omega (arith, unspawning))

passing :
    (e : Event) (from next : Phase) (end : Daemon) (es : List Event)
    → is_spawning e + budget next ≤ budget from
    → (Accounts end.phase es → Accounts end.phase (e ∷ es))
    → IsAccounted next es end
    → IsAccounted from (e ∷ es) end
passing e from next end es cost more (alive, accounts, bound) =
    (alive, more accounts, omega (arith, cost, bound))

Run-IsAccounted :
    {d end : Daemon} {es : List Event}
    → Run d es end
    → Alive d.phase d.alive
    → IsGoing d.phase
    → IsAccounted d.phase es end
Run-IsAccounted {d} at_rest h g = (h, going-Accounts d.phase g, omega arith)
Run-IsAccounted {d} (goes_on signalled step rest) h g =
    let (alive, leads, cost) = step-IsKept signalled d step h in
    over-IsAccounted d.phase exited signalled rest exited-IsOver leads alive (tt, λ f. f) refl
Run-IsAccounted {d} (goes_on (finished t) step rest) h g =
    let (alive, leads, cost) = step-IsKept (finished t) d step h in
    over-IsAccounted d.phase panicked (finished t) rest panicked-IsOver leads alive (tt, λ f. f)
      refl
Run-IsAccounted {d} {end} (goes_on (resolved r) {es} step rest) h g =
    let (alive, going, cost) = step-IsKept (resolved r) d step h in
    passing (resolved r) d.phase _ end es cost (λ a. a) (Run-IsAccounted rest alive going)
Run-IsAccounted {d} {end} (goes_on (opened b) {es} step rest) h g =
    let (alive, going, cost) = step-IsKept (opened b) d step h in
    passing (opened b) d.phase _ end es cost (λ a. a) (Run-IsAccounted rest alive going)
Run-IsAccounted {d} {end} (goes_on slept {es} step rest) h g =
    let (alive, going, cost) = step-IsKept slept d step h in
    passing slept d.phase _ end es cost (λ a. a) (Run-IsAccounted rest alive going)

-- However tasks end, ports fail and signals come, the daemon has exactly one reader, writer,
-- dispatcher, shutdown task and metrics task alive while it supervises them and none of them
-- otherwise. It has exited where a signal was among the events, it has panicked where one of its
-- tasks ended by itself, and otherwise neither has happened. It spawns its tasks once at most.
pub Run-generations :
    (es : List Event) (d : Daemon)
    → Run start es d
    → Alive d.phase d.alive × Accounts d.phase es × (spawned es ≤ 1)
Run-generations es d run = Run-IsAccounted run refl tt
