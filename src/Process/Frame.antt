-- ===== src/Process/Frame.antt =====
-- Induction over the operations of process/process.go, for what follows from the transitions of
-- `setState` alone.
use datarhei_core.Prelude.{
  ℕ, zero, suc, ◌≡◌, inl, inr, Bool, true, false, ◌||◌, List, [], ◌∷◌, Bool-cases, ltb, leb, ◌==◌,
  not, if◌then◌else◌, ◌-◌,
}
use datarhei_core.Process.{
  State, States, starting, running, finishing, failed, is_running, allowed, count, Timer, armed,
  expired, Exit, Process, Outcome, set_state,
}
use datarhei_core.Process.Ops.{
  unreconnect, reconnect, launched, start_process, start_call, send, stop_process, stop_call,
  kill_call, waiter, waiter_tail, stale_tick, Launch, Signal, interrupted, killed_hard, unreachable,
  is_finishing, is_start, state_of,
}
use datarhei_core.Process.Machine.{
  Event, starts, stops, kills, timer_fires, restart_runs, stale_ticks, child_exits, waiter_runs,
  tail_runs, fire, run_restart, exit_child, run_waiter, run_tail, step, run,
}

module _ (Q : State → States → Type 0)
    (kept : (s t : State) (n : States) → allowed s t ≡ true → Q s n → Q t (count t n)) where
  abbrev Holds : Process → Type 0
  Holds p = Q p.state p.states

  -- A test keeps what both of its branches keep.
  either : (b : Bool) (p q : Process) → Holds p → Holds q → Holds (if b then p else q)
  either true p q h k = h
  either false p q h k = k

  either_first :
      (b : Bool) (x y : Process × Outcome) → Holds x.0 → Holds y.0 → Holds (if b then x else y).0
  either_first true x y h k = h
  either_first false x y h k = k

  set_state-Holds : (s : State) (now : ℕ) (p : Process) → Holds p → Holds (set_state s now p).0
  unfolding set_state
  set_state-Holds s now p h = elim (Bool-cases (allowed p.state s)) [
    | inl admitted ↦ rw admitted (kept p.state s p.states admitted h)
    | inr refused ↦ rw refused h
  ]

  reconnect-Holds : (now : ℕ) (p : Process) → Holds p → Holds (reconnect now p)
  unfolding reconnect
  reconnect-Holds now p h = either p.reconn_enable _ _ h h

  launched-Holds : (l : Launch) (now : ℕ) (p : Process) → Holds p → Holds (launched l now p)
  unfolding launched
  launched-Holds l now p h =
      either (p.stale_timeout == 0) _ _ (set_state-Holds running now _ h)
        (set_state-Holds running now _ h)

  start_process-Holds :
      (l : Launch) (now : ℕ) (p : Process) → Holds p → Holds (start_process l now p).0
  unfolding start_process unreconnect
  start_process-Holds l now p h =
      let h1 = set_state-Holds starting now (unreconnect p) h in
      either_first (is_running p.state) _ _ h (
        either_first (l.pipe_fails || l.start_fails) _ _
          (reconnect-Holds now _ (set_state-Holds failed now _ h1)) (launched-Holds l now _ h1))

  send-Holds : (s : Signal) (now : ℕ) (p : Process) → Holds p → Holds (send s now p).0
  unfolding send
  send-Holds interrupted now p h = h
  send-Holds killed_hard now p h = h
  send-Holds unreachable now p h = set_state-Holds failed now p h

  stop_process-Holds :
      (wait : Bool) (s : Signal) (now : ℕ) (p : Process)
      → Holds p
      → Holds (stop_process wait s now p).0
  unfolding stop_process unreconnect
  stop_process-Holds wait s now p h =
      let h1 = set_state-Holds finishing now p h in
      either_first (not (is_running p.state)) _ _ h
        (either_first (is_finishing p.state) _ _ h (send-Holds s now _ (either wait _ _ h1 h1)))

  waiter-Holds : (e : Exit) (now : ℕ) (p : Process) → Holds p → Holds (waiter e now p)
  unfolding waiter
  waiter-Holds e now p h = set_state-Holds (state_of e) now p h

  fire-Holds : (t : Timer) (now : ℕ) (p : Process) → Holds p → Holds (fire t now p)
  unfolding fire
  fire-Holds (armed t) now p h = either (leb t now) _ _ h h
  fire-Holds Timer.nil now p h = h
  fire-Holds expired now p h = h

  run_restart-Holds :
      (n : ℕ) (l : Launch) (now : ℕ) (p : Process) → Holds p → Holds (run_restart n l now p)
  unfolding run_restart
  run_restart-Holds zero l now p h = h
  run_restart-Holds (suc n) l now p h = start_process-Holds l now _ h

  exit_child-Holds : (n : ℕ) (e : Exit) (p : Process) → Holds p → Holds (exit_child n e p)
  unfolding exit_child
  exit_child-Holds zero e p h = h
  exit_child-Holds (suc n) e p h = h

  run_waiter-Holds :
      (es : List Exit) (now : ℕ) (p : Process) → Holds p → Holds (run_waiter es now p)
  unfolding run_waiter
  run_waiter-Holds [] now p h = h
  run_waiter-Holds (e ∷ es) now p h = waiter-Holds e now _ h

  run_tail-Holds : (n now : ℕ) (p : Process) → Holds p → Holds (run_tail n now p)
  unfolding run_tail waiter_tail
  run_tail-Holds zero now p h = h
  run_tail-Holds (suc n) now p h = either (is_start p.order) _ _ (reconnect-Holds now _ h) h

  pub step-Holds : (e : ℕ × Event) (p : Process) → Holds p → Holds (step e p)
  unfolding step start_call stop_call kill_call stale_tick
  step-Holds (now, starts l) p h =
      either_first (is_start p.order) _ _ h (start_process-Holds l now _ h)
  step-Holds (now, stops wait s) p h =
      either_first (is_start p.order) _ _ (stop_process-Holds wait s now _ h) h
  step-Holds (now, kills wait s) p h =
      either_first (is_running p.state) _ _ (stop_process-Holds wait s now p h) h
  step-Holds (now, timer_fires) p h = fire-Holds p.timer now p h
  step-Holds (now, restart_runs l) p h = run_restart-Holds p.restarts l now p h
  step-Holds (now, stale_ticks s) p h =
      either p.stale_cancel _ _
        (either (ltb p.stale_timeout (now - p.stale_last)) _ _ (stop_process-Holds false s now p h)
          h)
        h
  step-Holds (now, child_exits e) p h = exit_child-Holds p.alive e p h
  step-Holds (now, waiter_runs) p h = run_waiter-Holds p.exited now p h
  step-Holds (now, tail_runs) p h = run_tail-Holds p.tails now p h

  pub run-Holds : (es : List (ℕ × Event)) (p : Process) → Holds p → Holds (run es p)
  unfolding run
  run-Holds [] p h = h
  run-Holds (e ∷ es) p h = run-Holds es (step e p) (step-Holds e p h)
