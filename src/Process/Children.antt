-- ===== src/Process/Children.antt =====
-- The number of children in process/process.go.
use datarhei_core.Prelude.{
  ℕ, zero, suc, ◌+◌, ◌≡◌, ◌≢◌, refl, Bool, false, List, [], ◌∷◌, arith, length,
}
use datarhei_core.Process.{
  start, stop, starting, is_running, Timer, Exit, Process, set_state, Config, new,
}
use datarhei_core.Process.Ops.{
  unreconnect, reconnect, launched, start_stopped, start_process, start_call, stop_process,
  stop_call, kill_call, waiter, waiter_tail, stale_tick, Launch, Signal, interrupted, killed_hard,
  unreachable,
}
use datarhei_core.Process.Machine.{
  Event, starts, stops, kills, timer_fires, restart_runs, stale_ticks, child_exits, waiter_runs,
  tail_runs, fire, run_restart, exit_child, run_waiter, run_tail, step, run,
}
use datarhei_core.Process.Accounting.{one_if}

-- The signal reaches the child: no caller comes between the end of `cmd.Wait` and the transition
-- that its waiter makes.
abbrev pub Reaches : Event → Type 0
Reaches (stops wait unreachable) = ⊥
Reaches (kills wait unreachable) = ⊥
Reaches (stale_ticks unreachable) = ⊥
Reaches _ = Unit

abbrev pub AllReach : List (ℕ × Event) → Type 0
AllReach [] = Unit
AllReach (e ∷ es) = Reaches e.1 × AllReach es

-- The children that run and those whose waiter is at work, and the state between two steps.
pub record Single (p : Process) : Type 0 where
  pub one : p.alive + length p.exited ≡ one_if (is_running p.state)
  pub settled : p.state ≢ starting

start_process-Single :
    (l : Launch) (now : ℕ) (p : Process) → Single p → Single (start_process l now p).0
unfolding start_process start_stopped launched set_state reconnect unreconnect
start_process-Single l now p h = ground arith

stop_process-Single :
    (wait : Bool) (s : Signal) (now : ℕ) (p : Process)
    → s ≢ unreachable
    → Single p
    → Single (stop_process wait s now p).0
unfolding stop_process set_state unreconnect
stop_process-Single wait s now p n h = ground arith

waiter-Single :
    (e : Exit) (es : List Exit) (now : ℕ) (p : Process)
    → p.exited ≡ e ∷ es
    → Single p
    → Single (waiter e now (record p { exited = es }))
unfolding waiter set_state
waiter-Single e es now p q h = ground arith

start_call-Single : (l : Launch) (now : ℕ) (p : Process) → Single p → Single (start_call l now p).0
unfolding start_call
start_call-Single l now p h =
    ground (arith, start_process-Single l now (record p { order = start }))

stop_call-Single :
    (wait : Bool) (s : Signal) (now : ℕ) (p : Process)
    → s ≢ unreachable
    → Single p
    → Single (stop_call wait s now p).0
unfolding stop_call
stop_call-Single wait s now p n h =
    ground (arith, stop_process-Single wait s now (record p { order = stop }) n)

kill_call-Single :
    (wait : Bool) (s : Signal) (now : ℕ) (p : Process)
    → s ≢ unreachable
    → Single p
    → Single (kill_call wait s now p).0
unfolding kill_call
kill_call-Single wait s now p n h = ground (arith, stop_process-Single wait s now p n)

stale-Single :
    (s : Signal) (now : ℕ) (p : Process)
    → s ≢ unreachable
    → Single p
    → Single (step (now, stale_ticks s) p)
unfolding step stale_tick
stale-Single s now p n h = ground (arith, stop_process-Single false s now p n)

fire-Single : (t : Timer) (now : ℕ) (p : Process) → Single p → Single (fire t now p)
unfolding fire
fire-Single t now p h = ground arith

run_restart-Single :
    (n : ℕ) (l : Launch) (now : ℕ) (p : Process) → Single p → Single (run_restart n l now p)
unfolding run_restart
run_restart-Single zero l now p h = h
run_restart-Single (suc n) l now p h =
    start_process-Single l now (record p { restarts = n })
      (record { one = h.one; settled = h.settled })

exit_child-Single :
    (n : ℕ) (e : Exit) (p : Process) → p.alive ≡ n → Single p → Single (exit_child n e p)
unfolding exit_child
exit_child-Single zero e p q h = h
exit_child-Single (suc n) e p q h = record { one = omega (arith, h.one); settled = h.settled }

run_waiter-Single :
    (es : List Exit) (now : ℕ) (p : Process)
    → p.exited ≡ es
    → Single p
    → Single (run_waiter es now p)
unfolding run_waiter
run_waiter-Single [] now p q h = h
run_waiter-Single (e ∷ es) now p q h = waiter-Single e es now p q h

run_tail-Single : (n now : ℕ) (p : Process) → Single p → Single (run_tail n now p)
unfolding run_tail waiter_tail reconnect unreconnect
run_tail-Single n now p h = ground arith

step-Single : (e : ℕ × Event) (p : Process) → Reaches e.1 → Single p → Single (step e p)
unfolding step
step-Single (now, starts l) p r h = start_call-Single l now p h
step-Single (now, stops wait interrupted) p r h =
    stop_call-Single wait interrupted now p (λ e. cc) h
step-Single (now, stops wait killed_hard) p r h =
    stop_call-Single wait killed_hard now p (λ e. cc) h
step-Single (now, stops wait unreachable) p r h = absurd r
step-Single (now, kills wait interrupted) p r h =
    kill_call-Single wait interrupted now p (λ e. cc) h
step-Single (now, kills wait killed_hard) p r h =
    kill_call-Single wait killed_hard now p (λ e. cc) h
step-Single (now, kills wait unreachable) p r h = absurd r
step-Single (now, timer_fires) p r h = fire-Single p.timer now p h
step-Single (now, restart_runs l) p r h = run_restart-Single p.restarts l now p h
step-Single (now, stale_ticks interrupted) p r h = stale-Single interrupted now p (λ e. cc) h
step-Single (now, stale_ticks killed_hard) p r h = stale-Single killed_hard now p (λ e. cc) h
step-Single (now, stale_ticks unreachable) p r h = absurd r
step-Single (now, child_exits e) p r h = exit_child-Single p.alive e p refl h
step-Single (now, waiter_runs) p r h = run_waiter-Single p.exited now p refl h
step-Single (now, tail_runs) p r h = run_tail-Single p.tails now p h

run-Single : (es : List (ℕ × Event)) (p : Process) → AllReach es → Single p → Single (run es p)
unfolding run
run-Single [] p r h = h
run-Single (e ∷ es) p r h = run-Single es (step e p) r.1 (step-Single e p r.0 h)

-- After any sequence of calls and goroutine steps on a new process, in which no signal to a child
-- fails (`AllReach`), the children that run and those whose waiter has not yet seen their end are
-- together one if the state is a running one, and none otherwise; and the state between two steps
-- is never starting.
pub run-new-Single :
    (c : Config) (t : ℕ) (es : List (ℕ × Event)) → AllReach es → Single (run es (new c t))
unfolding new
run-new-Single c t es r = run-Single es (new c t) r (record { one = refl; settled = λ e. cc })
