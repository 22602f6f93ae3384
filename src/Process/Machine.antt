-- ===== src/Process/Machine.antt =====
-- The interleavings of process/process.go: the calls of clients and the steps of the goroutines, in
-- any order. A goroutine that is not there makes no step.
use datarhei_core.Prelude.{ℕ, zero, suc, Bool, List, [], ◌∷◌, if◌then◌else◌, leb}
use datarhei_core.Process.{Process, Timer, armed, expired, Exit}
use datarhei_core.Process.Ops.{
  Launch, Signal, start_process, start_call, stop_call, kill_call, waiter, waiter_tail, stale_tick,
}

pub data Event : Type 0 where
  starts : Launch → Event
  stops : Bool → Signal → Event
  kills : Bool → Signal → Event
  timer_fires : Event
  restart_runs : Launch → Event
  stale_ticks : Signal → Event
  child_exits : Exit → Event
  waiter_runs : Event
  tail_runs : Event

-- The runtime starts the function of a timer whose time has come.
unfoldable pub fire : Timer → ℕ → Process → Process
fire (armed t) now p =
    if leb t now then record p { timer = expired; restarts = suc p.restarts } else p
fire Timer.nil now p = p
fire expired now p = p

-- The function of the timer: `start`, under the order lock.
unfoldable pub run_restart : ℕ → Launch → ℕ → Process → Process
run_restart zero l now p = p
run_restart (suc n) l now p = (start_process l now (record p { restarts = n })).0

unfoldable pub exit_child : ℕ → Exit → Process → Process
exit_child zero e p = p
exit_child (suc n) e p = record p { alive = n; exited = e ∷ p.exited }

unfoldable pub run_waiter : List Exit → ℕ → Process → Process
run_waiter [] now p = p
run_waiter (e ∷ es) now p = waiter e now (record p { exited = es })

unfoldable pub run_tail : ℕ → ℕ → Process → Process
run_tail zero now p = p
run_tail (suc n) now p = waiter_tail now (record p { tails = n })

unfoldable pub step : ℕ × Event → Process → Process
unfolding fire run_restart exit_child run_waiter run_tail
step (now, starts l) p = (start_call l now p).0
step (now, stops wait s) p = (stop_call wait s now p).0
step (now, kills wait s) p = (kill_call wait s now p).0
step (now, timer_fires) p = fire p.timer now p
step (now, restart_runs l) p = run_restart p.restarts l now p
step (now, stale_ticks s) p = if p.stale_cancel then stale_tick s now p else p
step (now, child_exits e) p = exit_child p.alive e p
step (now, waiter_runs) p = run_waiter p.exited now p
step (now, tail_runs) p = run_tail p.tails now p

unfoldable pub run : List (ℕ × Event) → Process → Process
run [] p = p
run (e ∷ es) p = run es (step e p)
