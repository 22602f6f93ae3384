-- ===== src/Process/Ops.antt =====
-- The methods of process/process.go.
use datarhei_core.Prelude.{ℕ, suc, ◌+◌, ◌-◌, Bool, true, false, not, ◌||◌, if◌then◌else◌, ltb, ◌==◌}
use datarhei_core.Process.{
  State, finished, starting, running, finishing, failed, killed, is_running, Order, start, stop,
  Timer, armed, Callback, wrapped, Exit, normal, signaled, other, io_error, code, Process, Outcome,
  ok, error, set_state,
}

-- `unreconnect`
unfoldable pub unreconnect : Process → Process
unreconnect p = record p { timer = Timer.nil }

unfoldable pub reconnect : ℕ → Process → Process
unfolding unreconnect
reconnect now p =
    if p.reconn_enable then record (unreconnect p) { timer = armed (now + p.reconn_delay) } else p

-- What the operating system says to a start: whether the pipe and the command are there, and
-- whether the new process is found for the limiter.
pub record Launch : Type 0 where
  pub pipe_fails : Bool
  pub start_fails : Bool
  pub is_found : Bool

-- A new child: the limiter, the waiter, and the stale watcher if there is a timeout.
unfoldable pub launched : Launch → ℕ → Process → Process
launched l now p =
    let p1 = record p { alive = suc p.alive; limiting = p.limiting || l.is_found } in
    let p2 = (set_state running now p1).0 in
    if p.stale_timeout == 0 then p2 else record p2 { stale_cancel = true; stale_last = now }

-- `start`, for a process that is not running
unfoldable pub start_stopped : Launch → ℕ → Process → Process × Outcome
unfolding launched
start_stopped l now p =
    let p1 = (set_state starting now (unreconnect p)).0 in
    if l.pipe_fails || l.start_fails
    then (reconnect now (set_state failed now p1).0, error)
    else (launched l now p1, ok)

-- `start`; the method `Start` is `start_call`
unfoldable pub start_process : Launch → ℕ → Process → Process × Outcome
unfolding start_stopped
start_process l now p = if is_running p.state then (p, ok) else start_stopped l now p

abbrev pub is_start : Order → Bool
is_start start = true
is_start stop = false

-- `Start`
unfoldable pub start_call : Launch → ℕ → Process → Process × Outcome
unfolding start_process
start_call l now p =
    if is_start p.order then (p, ok) else start_process l now (record p { order = start })

-- What a signal does: the interrupt is delivered, only SIGKILL is, or the process is gone.
pub data Signal : Type 0 where
  interrupted killed_hard unreachable : Signal

abbrev pub is_finishing : State → Bool
is_finishing finishing = true
is_finishing _ = false

unfoldable pub send : Signal → ℕ → Process → Process × Outcome
send interrupted now p = (record p { kill_timer = true }, ok)
send killed_hard now p = (p, ok)
send unreachable now p = ((set_state failed now p).0, error)

-- `stop`; with `wait` it puts a callback around `onExit`, for which the caller waits
unfoldable pub stop_process : Bool → Signal → ℕ → Process → Process × Outcome
unfolding send
stop_process wait s now p =
    if not (is_running p.state)
    then (unreconnect p, ok)
    else if is_finishing p.state
    then (p, ok)
    else (let p1 = (set_state finishing now p).0 in
        send s now (if wait then record p1 { on_exit = wrapped p1.on_exit } else p1))

-- `Stop`
unfoldable pub stop_call : Bool → Signal → ℕ → Process → Process × Outcome
unfolding stop_process
stop_call wait s now p =
    if is_start p.order then stop_process wait s now (record p { order = stop }) else (p, ok)

-- `Kill`
unfoldable pub kill_call : Bool → Signal → ℕ → Process → Process × Outcome
unfolding stop_process
kill_call wait s now p = if is_running p.state then stop_process wait s now p else (p, ok)

-- The state for what `cmd.Wait` reports.
abbrev pub state_of : Exit → State
state_of normal = finished
state_of (code n) = if n == 255 then finished else failed
state_of signaled = killed
state_of other = killed
state_of io_error = killed

-- A call of `onExit`: the callback of `stop` puts the one below it back.
abbrev pub after_exit : Callback → Callback
after_exit (wrapped c) = c
after_exit c = c

-- `waiter`, from the return of `cmd.Wait` to the order lock, which it does without: one step here.
unfoldable pub waiter : Exit → ℕ → Process → Process
waiter e now p =
    let p1 = (set_state (state_of e) now p).0 in
    record p1 {
      limiting = false;
      kill_timer = false;
      stale_cancel = false;
      on_exit = after_exit p1.on_exit;
      tails = suc p1.tails;
    }

-- The rest of `waiter`, under the order lock.
unfoldable pub waiter_tail : ℕ → Process → Process
waiter_tail now p = if is_start p.order then reconnect now p else p

-- A tick of `staler` while it is not cancelled; its stop does without the order lock, and is one step
-- here.
unfoldable pub stale_tick : Signal → ℕ → Process → Process
unfolding stop_process
stale_tick s now p =
    if ltb p.stale_timeout (now - p.stale_last) then (stop_process false s now p).0 else p
