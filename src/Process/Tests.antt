-- ===== src/Process/Tests.antt =====
-- Lives of a process (process/process.go).
use datarhei_core.Prelude.{ℕ, ◌≡◌, refl, ◌↔◌, ◌⊎◌, true, false, List, [], ◌∷◌, arith}
use datarhei_core.Prelude.Words.{add64}
use datarhei_core.Process.{
  start, stop, finished, running, finishing, failed, allowed, count, normal, signaled, code,
  Process, Config, new, set_state,
}
use datarhei_core.Process.Ops.{
  start_call, stop_call, start_process, launched, stop_process, waiter, waiter_tail, reconnect,
  unreconnect, Launch, interrupted, unreachable, send,
}
use datarhei_core.Process.Machine.{
  Event, starts, stops, kills, timer_fires, restart_runs, child_exits, waiter_runs, tail_runs, step,
  run,
}
use datarhei_core.Process.Transitions.{Documented, allowed_iff}
use datarhei_core.Process.Accounting.{Balanced, run-Balanced}
use datarhei_core.Process.Children.{Single, run-new-Single}
use datarhei_core.Process.Orders.{Quiet, run-Quiet}
use datarhei_core.Process.Restarts.{
  Steady, restart_runs-ignores_order, restarts_after_exit, overtaken-two_children,
}
use datarhei_core.Process.Lost.{Lost, finishing-Lost, run-Lost}

abbrev config : Config
config = record {
  reconnect = true;
  reconnect_delay = 10;
  stale_timeout = 0;
  has_on_exit = false;
  has_on_state_change = true;
}

abbrev good : Launch
good = record { pipe_fails = false; start_fails = false; is_found = true }

program : Unit {0}
unfolding run step new start_call stop_call start_process launched stop_process send waiter
    waiter_tail reconnect unreconnect set_state count add64
program = tt

abbrev started : List (ℕ × Event)
started = (1, starts good) ∷ []

abbrev one_life : List (ℕ × Event)
one_life =
    (1, starts good)
    ∷ (5, stops false interrupted)
    ∷ (6, child_exits (code 255))
    ∷ (6, waiter_runs)
    ∷ (6, tail_runs)
    ∷ []

one_life_ends :
    ((run one_life (new config 0)).state ≡ finished) × ((run one_life (new config 0)).alive ≡ 0)
unfolding program
one_life_ends = (refl, refl)

allowed_iff_example :
    (allowed finishing failed ≡ true)
    ↔ (Documented finishing failed ⊎ ((finishing ≡ finishing) × (failed ≡ failed)))
allowed_iff_example = allowed_iff finishing failed

run-Balanced_example : let p = run one_life (new config 0) in Balanced p.state p.states
run-Balanced_example = run-Balanced config 0 one_life

run-new-Single_example : Single (run one_life (new config 0))
run-new-Single_example = run-new-Single config 0 one_life (tt, (tt, (tt, (tt, (tt, tt)))))

-- The timer has fired when `Stop` comes: its function waits for the lock.
abbrev stopped_late : List (ℕ × Event)
stopped_late =
    (1, starts good)
    ∷ (2, child_exits normal)
    ∷ (2, waiter_runs)
    ∷ (2, tail_runs)
    ∷ (12, timer_fires)
    ∷ (12, stops true interrupted)
    ∷ []

restart_runs-ignores_order_example :
    let q = step (13, restart_runs good) (run stopped_late (new config 0)) in
    (q.state ≡ running) × (q.order ≡ stop) × (q.alive ≡ 1)
unfolding program
restart_runs-ignores_order_example =
    restart_runs-ignores_order good (refl, refl) 13 0 (run stopped_late (new config 0)) refl refl
      refl

new-Quiet : Quiet (new config 0)
unfolding program
new-Quiet = record { ordered = refl; not_running = refl; no_timer = refl; no_restart = refl }

run-Quiet_example : Quiet (
    run
      ((3, kills false interrupted) ∷ (4, stops true interrupted) ∷ (5, timer_fires) ∷ [])
      (new config 0))
run-Quiet_example =
    run-Quiet ((3, kills false interrupted) ∷ (4, stops true interrupted) ∷ (5, timer_fires) ∷ [])
      (new config 0) (λ h. h, (λ h. h, (λ h. h, tt))) new-Quiet

abbrev waiting : List (ℕ × Event)
waiting = (1, starts good) ∷ (2, child_exits normal) ∷ (2, waiter_runs) ∷ (2, tail_runs) ∷ []

started-Steady : Steady (run started (new config 0))
unfolding program
started-Steady = record {
  ordered = refl;
  running_state = refl;
  enabled = refl;
  one_child = refl;
  no_waiter = refl;
  no_tail = refl;
  no_restart = refl;
}

restarts_after_exit_example :
    let q =
      run
        ((2, child_exits signaled)
          ∷ (2, waiter_runs)
          ∷ (2, tail_runs)
          ∷ (12, timer_fires)
          ∷ (12, restart_runs good)
          ∷ [])
        (run started (new config 0)) in
    (q.state ≡ running) × (q.order ≡ start) × (q.alive ≡ 1)
unfolding program
restarts_after_exit_example =
    restarts_after_exit good (refl, refl) 2 12 12 signaled (run started (new config 0))
      started-Steady (omega arith)

overtaken-two_children_example :
    (run
      ((2, child_exits normal)
        ∷ (2, stops true unreachable)
        ∷ (2, starts good)
        ∷ (2, waiter_runs)
        ∷ (2, tail_runs)
        ∷ (12, timer_fires)
        ∷ (12, restart_runs good)
        ∷ [])
      (run started (new config 0))).alive
    ≡ 2
unfolding program
overtaken-two_children_example =
    overtaken-two_children good (refl, refl) 2 12 normal true (run started (new config 0))
      started-Steady (omega arith)

abbrev once : Config
once = record {
  reconnect = false;
  reconnect_delay = 10;
  stale_timeout = 0;
  has_on_exit = false;
  has_on_state_change = false;
}

abbrev stopping : List (ℕ × Event)
stopping = (1, starts good) ∷ (2, stops false interrupted) ∷ []

finishing-Lost_example : Lost (
    run
      ((3, starts good) ∷ (4, child_exits normal) ∷ (4, waiter_runs) ∷ (4, tail_runs) ∷ [])
      (run stopping (new once 0)))
unfolding program
finishing-Lost_example =
    finishing-Lost good 3 4 normal (run stopping (new once 0)) refl refl refl refl refl refl refl
      refl

lost : Process
lost =
    run ((3, starts good) ∷ (4, child_exits normal) ∷ (4, waiter_runs) ∷ (4, tail_runs) ∷ [])
      (run stopping (new once 0))

lost-Lost : Lost lost
unfolding program lost
lost-Lost =
    finishing-Lost good 3 4 normal (run stopping (new once 0)) refl refl refl refl refl refl refl
      refl

run-Lost_example : Lost (run ((9, starts good) ∷ (10, starts good) ∷ []) lost)
run-Lost_example =
    run-Lost ((9, starts good) ∷ (10, starts good) ∷ []) lost (λ h. h, (λ h. h, tt)) lost-Lost
