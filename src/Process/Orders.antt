-- ===== src/Process/Orders.antt =====
-- Processes with the order to stop in process/process.go.
use datarhei_core.Prelude.{ℕ, zero, suc, ◌≡◌, Bool, true, false, List, [], ◌∷◌, arith}
use datarhei_core.Process.{start, stop, is_running, Timer, armed, Exit, Process, set_state}
use datarhei_core.Process.Ops.{
  unreconnect, stop_process, stop_call, kill_call, waiter, waiter_tail, stale_tick, Signal,
}
use datarhei_core.Process.Machine.{
  Event, starts, stops, kills, timer_fires, restart_runs, stale_ticks, child_exits, waiter_runs,
  tail_runs, fire, run_restart, exit_child, run_waiter, run_tail, step, run,
}

abbrev pub IsStart : Event → Type 0
IsStart (starts l) = Unit
IsStart _ = ⊥

abbrev pub NoStart : List (ℕ × Event) → Type 0
NoStart [] = Unit
NoStart (e ∷ es) = (¬ IsStart e.1) × NoStart es

abbrev pub is_armed : Timer → Bool
is_armed (armed t) = true
is_armed _ = false

-- The order is to stop, the process is not running, and no restart is scheduled or under way.
pub record Quiet (p : Process) : Type 0 where
  pub ordered : p.order ≡ stop
  pub not_running : is_running p.state ≡ false
  pub no_timer : is_armed p.timer ≡ false
  pub no_restart : p.restarts ≡ 0

stop_process-Quiet :
    (wait : Bool) (s : Signal) (now : ℕ) (p : Process)
    → Quiet p
    → Quiet (stop_process wait s now p).0
unfolding stop_process unreconnect
stop_process-Quiet wait s now p h = ground arith

waiter-Quiet : (e : Exit) (now : ℕ) (p : Process) → Quiet p → Quiet (waiter e now p)
unfolding waiter set_state
waiter-Quiet e now p h = ground arith

fire-Quiet :
    (t : Timer) (now : ℕ) (p : Process) → is_armed t ≡ false → Quiet p → Quiet (fire t now p)
unfolding fire
fire-Quiet t now p a h = ground arith

step-Quiet : (e : ℕ × Event) (p : Process) → ¬ IsStart e.1 → Quiet p → Quiet (step e p)
unfolding step stop_call kill_call stale_tick exit_child run_waiter run_tail waiter_tail run_restart
step-Quiet (now, starts l) p n h = absurd (n tt)
step-Quiet (now, stops wait s) p n h = ground arith
step-Quiet (now, kills wait s) p n h = ground arith
step-Quiet (now, timer_fires) p n h = fire-Quiet p.timer now p h.no_timer h
step-Quiet (now, restart_runs l) p n h = ground arith
step-Quiet (now, stale_ticks s) p n h = ground (arith, stop_process-Quiet false s now p h)
step-Quiet (now, child_exits e) p n h = exited p.alive
  where
    exited : (k : ℕ) → Quiet (exit_child k e p)
    exited zero = h
    exited (suc k) = ground arith
step-Quiet (now, waiter_runs) p n h = ran p.exited
  where
    ran : (es : List Exit) → Quiet (run_waiter es now p)
    ran [] = h
    ran (e ∷ es) = waiter-Quiet e now (record p { exited = es }) (ground arith)
step-Quiet (now, tail_runs) p n h = ran p.tails
  where
    ran : (k : ℕ) → Quiet (run_tail k now p)
    ran zero = h
    ran (suc k) = ground arith

-- A process that has the order to stop, does not run, and has no timer and no restart on its way
-- (`Quiet`) stays so in any sequence of steps without a call of `Start`.
pub run-Quiet : (es : List (ℕ × Event)) (p : Process) → NoStart es → Quiet p → Quiet (run es p)
unfolding run
run-Quiet [] p n h = h
run-Quiet (e ∷ es) p n h = run-Quiet es (step e p) n.1 (step-Quiet e p n.0 h)

-- `Stop` of a process that has the order to start, does not run, and has no restart whose timer
-- has fired, leaves it with the order to stop, not running, and with no timer and no restart on
-- its way (`Quiet`).
pub stop_call-Quiet :
    (wait : Bool) (s : Signal) (now : ℕ) (p : Process)
    → p.order ≡ start
    → is_running p.state ≡ false
    → p.restarts ≡ 0
    → Quiet (stop_call wait s now p).0
unfolding stop_call stop_process unreconnect
stop_call-Quiet wait s now p o r z = ground arith
