-- ===== src/Process.antt =====
-- process/process.go: a child process that is started, stopped and restarted. The clock, the
-- outcome of each call of the operating system and the moment at which each goroutine goes on are
-- arguments; what runs under the order lock is one step. Logging, the parser and the onStart
-- callback are left out, and so is the branch for Windows.
pub mod Limits
pub mod Ops
pub mod Machine
pub mod Transitions
pub mod Frame
pub mod Accounting
pub mod Children
pub mod Orders
pub mod Restarts
pub mod Lost
mod Tests
use datarhei_core.Prelude.{ℕ, ◌+◌, Bool, true, false, List, [], ◌∷◌, if◌then◌else◌}
use datarhei_core.Prelude.Words.{add64}

-- `stateType`
pub data State : Type 0 where
  finished starting running finishing failed killed : State

-- `stateType.IsRunning`
abbrev pub is_running : State → Bool
is_running starting = true
is_running running = true
is_running finishing = true
is_running _ = false

-- The cumulative history, uint64 each.
pub record States : Type 0 where
  pub finished : ℕ
  pub starting : ℕ
  pub running : ℕ
  pub finishing : ℕ
  pub failed : ℕ
  pub killed : ℕ

pub data Order : Type 0 where
  start stop : Order

-- `reconn.timer`: none, one that will call its function, or one whose time has come.
pub data Timer : Type 0 where
  nil expired : Timer
  armed : ℕ → Timer

-- `callbacks.onExit`: none, that of the configuration, or one that `stop` put around another.
pub data Callback : Type 0 where
  nil user : Callback
  wrapped : Callback → Callback

-- What `cmd.Wait` reports: no error, a code, a signal, something else, or an error of its own.
pub data Exit : Type 0 where
  normal signaled other io_error : Exit
  code : ℕ → Exit

pub record Process : Type 0 where
  pub state : State
  pub states : States
  pub time : ℕ
  pub order : Order
  pub reconn_enable : Bool
  pub reconn_delay : ℕ
  pub timer : Timer
  pub kill_timer : Bool
  pub stale_timeout : ℕ
  pub stale_last : ℕ
  pub stale_cancel : Bool
  pub limiting : Bool
  pub on_exit : Callback
  pub notifies : Bool  -- whether there is an onStateChange
  pub changes : List (State × State)  -- its calls, the latest first
  -- Goroutines: restarts that wait for the order lock, children that run, waiters whose child has
  -- gone, waiters at the order lock.
  pub restarts : ℕ
  pub alive : ℕ
  pub exited : List Exit
  pub tails : ℕ

-- The transitions that `setState` admits.
abbrev pub allowed : State → State → Bool
allowed finished starting = true
allowed starting finishing = true
allowed starting running = true
allowed starting failed = true
allowed running finished = true
allowed running finishing = true
allowed running failed = true
allowed running killed = true
allowed finishing finished = true
allowed finishing failed = true
allowed finishing killed = true
allowed failed starting = true
allowed killed starting = true
allowed _ _ = false

-- The counter of the new state.
pub count : State → States → States
count finished n = record n { finished = add64 n.finished 1 }
count starting n = record n { starting = add64 n.starting 1 }
count running n = record n { running = add64 n.running 1 }
count finishing n = record n { finishing = add64 n.finishing 1 }
count failed n = record n { failed = add64 n.failed 1 }
count killed n = record n { killed = add64 n.killed 1 }

pub data Outcome : Type 0 where
  ok error : Outcome

pub set_state : State → ℕ → Process → Process × Outcome
set_state s now p =
    if allowed p.state s
    then (
      record p {
        state = s;
        states = count s p.states;
        time = now;
        changes = if p.notifies then (p.state, s) ∷ p.changes else p.changes;
      },
      ok,
    )
    else (p, error)

pub record Config : Type 0 where
  pub reconnect : Bool
  pub reconnect_delay : ℕ
  pub stale_timeout : ℕ
  pub has_on_exit : Bool
  pub has_on_state_change : Bool

-- `New`, for a configuration with a binary.
pub new : Config → ℕ → Process
new c now = record {
  state = finished;
  states = record {
    finished = 0;
    starting = 0;
    running = 0;
    finishing = 0;
    failed = 0;
    killed = 0;
  };
  time = now;
  order = stop;
  reconn_enable = c.reconnect;
  reconn_delay = c.reconnect_delay;
  timer = Timer.nil;
  kill_timer = false;
  stale_timeout = c.stale_timeout;
  stale_last = now;
  stale_cancel = false;
  limiting = false;
  on_exit = if c.has_on_exit then user else Callback.nil;
  notifies = c.has_on_state_change;
  changes = [];
  restarts = 0;
  alive = 0;
  exited = [];
  tails = 0;
}
