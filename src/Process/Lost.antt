-- ===== src/Process/Lost.antt =====
-- A start that is lost, in process/process.go: the order is to start, and nothing starts the process.
use datarhei_core.Prelude.{ℕ, zero, suc, ◌≡◌, Bool, false, List, [], ◌∷◌, arith}
use datarhei_core.Process.{start, stop, finishing, is_running, Timer, Exit, Process, set_state}
use datarhei_core.Process.Ops.{
  unreconnect, reconnect, start_process, start_call, stop_process, kill_call, waiter, waiter_tail,
  stale_tick, Launch, Signal,
}
use datarhei_core.Process.Machine.{
  Event, starts, stops, kills, timer_fires, restart_runs, stale_ticks, child_exits, waiter_runs,
  tail_runs, fire, run_restart, exit_child, run_waiter, run_tail, step, run,
}
use datarhei_core.Process.Orders.{is_armed}

abbrev pub IsStop : Event → Type 0
IsStop (stops wait s) = Unit
IsStop _ = ⊥

abbrev pub NoStop : List (ℕ × Event) → Type 0
NoStop [] = Unit
NoStop (e ∷ es) = (¬ IsStop e.1) × NoStop es

-- The order is to start, but the process is not running and nothing will start it.
pub record Lost (p : Process) : Type 0 where
  pub ordered : p.order ≡ start
  pub not_running : is_running p.state ≡ false
  pub disabled : p.reconn_enable ≡ false
  pub no_timer : is_armed p.timer ≡ false
  pub no_restart : p.restarts ≡ 0

-- In a process that is finishing with the order to stop, one child, reconnect disabled and nothing
-- else under way, a `Start` followed by the end of the child and both parts of its waiter leaves
-- the order to start, a state that is not running, and no timer and no restart on its way
-- (`Lost`).
pub finishing-Lost :
    (l : Launch) (now t : ℕ) (e : Exit) (p : Process)
    → p.state ≡ finishing
    → p.order ≡ stop
    → p.reconn_enable ≡ false
    → is_armed p.timer ≡ false
    → p.restarts ≡ 0
    → p.alive ≡ 1
    → p.exited ≡ []
    → p.tails ≡ 0
    → Lost (run ((now, starts l) ∷ (t, child_exits e) ∷ (t, waiter_runs) ∷ (t, tail_runs) ∷ []) p)
unfolding run step start_call start_process exit_child run_waiter run_tail waiter waiter_tail
    reconnect set_state
finishing-Lost l now t e p f o d a z c x k = ground arith

stop_process-Lost :
    (wait : Bool) (s : Signal) (now : ℕ) (p : Process) → Lost p → Lost (stop_process wait s now p).0
unfolding stop_process unreconnect
stop_process-Lost wait s now p h = ground arith

waiter-Lost : (e : Exit) (now : ℕ) (p : Process) → Lost p → Lost (waiter e now p)
unfolding waiter set_state
waiter-Lost e now p h = ground arith

fire-Lost : (t : Timer) (now : ℕ) (p : Process) → is_armed t ≡ false → Lost p → Lost (fire t now p)
unfolding fire
fire-Lost t now p a h = ground arith

step-Lost : (e : ℕ × Event) (p : Process) → ¬ IsStop e.1 → Lost p → Lost (step e p)
unfolding step start_call kill_call stale_tick exit_child run_waiter run_tail waiter_tail
    run_restart reconnect
step-Lost (now, stops wait s) p n h = absurd (n tt)
step-Lost (now, starts l) p n h = ground arith
step-Lost (now, kills wait s) p n h = ground arith
step-Lost (now, timer_fires) p n h = fire-Lost p.timer now p h.no_timer h
step-Lost (now, restart_runs l) p n h = ground arith
step-Lost (now, stale_ticks s) p n h = ground (arith, stop_process-Lost false s now p h)
step-Lost (now, child_exits e) p n h = exited p.alive
  where
    exited : (k : ℕ) → Lost (exit_child k e p)
    exited zero = h
    exited (suc k) = ground arith
step-Lost (now, waiter_runs) p n h = ran p.exited
  where
    ran : (es : List Exit) → Lost (run_waiter es now p)
    ran [] = h
    ran (e ∷ es) = waiter-Lost e now (record p { exited = es }) (ground arith)
step-Lost (now, tail_runs) p n h = ran p.tails
  where
    ran : (k : ℕ) → Lost (run_tail k now p)
    ran zero = h
    ran (suc k) = ground arith

-- A process that is `Lost`, with the order to start but neither running nor about to be, stays so
-- in any sequence of steps without a call of `Stop`, in particular whenever `Start` is called.
pub run-Lost : (es : List (ℕ × Event)) (p : Process) → NoStop es → Lost p → Lost (run es p)
unfolding run
run-Lost [] p n h = h
run-Lost (e ∷ es) p n h = run-Lost es (step e p) n.1 (step-Lost e p n.0 h)
