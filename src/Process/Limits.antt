-- ===== src/Process/Limits.antt =====
-- process/limits.go: the limiter, which watches the CPU and the memory that a process uses. What
-- psutil reads is an argument of a tick, `none` for an error; a CPU value is a number in any unit,
-- since it is only compared. A tick has one time.
pub mod Since
pub mod Runs
mod Tests
use datarhei_core.Prelude.{
  ℕ, ◌+◌, ◌-◌, Bool, true, false, ◌&&◌, ◌||◌, List, [], ◌∷◌, Option, none, some, ltb, leb,
  if◌then◌else◌,
}

-- The fields for one of the two: the limit, two readings, and when the limit was reached.
pub record Resource : Type 0 where
  pub limit : ℕ
  pub current : ℕ
  pub last : ℕ
  pub since : ℕ

-- `limiter`; `running` says whether `proc` is not nil.
pub record Limiter : Type 0 where
  pub cpu : Resource
  pub memory : Resource
  pub wait_for : ℕ
  pub running : Bool

unfoldable pub new_resource : ℕ → Resource
new_resource limit = record { limit = limit; current = 0; last = 0; since = 0 }

-- `NewLimiter`
unfoldable pub new_limiter : ℕ → ℕ → ℕ → Limiter
unfolding new_resource
new_limiter cpu memory wait = record {
  cpu = new_resource cpu;
  memory = new_resource memory;
  wait_for = wait;
  running = false;
}

unfoldable pub reset_resource : Resource → Resource
reset_resource r = record r { current = 0; last = 0 }

-- `reset`
unfoldable pub reset : Limiter → Limiter
unfolding reset_resource
reset l = record l { cpu = reset_resource l.cpu; memory = reset_resource l.memory }

-- `Start`: `none` is the error that the limiter is already running.
unfoldable pub start_limiter : Limiter → Option Limiter
unfolding reset
start_limiter l = if l.running then none else some (record (reset l) { running = true })

-- `Stop`
unfoldable pub stop_limiter : Limiter → Limiter
unfolding reset
stop_limiter l = if l.running then reset (record l { running = false }) else l

unfoldable pub read : Option ℕ → Resource → Resource
read none r = r
read (some v) r = record r { last = r.current; current = v }

-- If the value before is below the limit, the limit is reached as of now.
unfoldable pub reach : ℕ → Resource → Resource
reach now r = if leb r.last r.limit then record r { since = now } else r

-- The check of one resource: its new state, and whether its limit is exceeded.
unfoldable pub check : ℕ → ℕ → Resource → Resource × Bool
unfolding reach
check wait now r =
    if ltb 0 r.limit && ltb r.limit r.current
    then (reach now r, leb wait (now - (reach now r).since))
    else (r, false)

unfoldable pub collect_running : ℕ → Option ℕ → Option ℕ → Limiter → Limiter × Bool
unfolding read check
collect_running now cpu memory l =
    let c = check l.wait_for now (read cpu l.cpu) in
    let m = check l.wait_for now (read memory l.memory) in
    (record l { cpu = c.0; memory = m.0 }, c.1 || m.1)

-- `collect`: the new state, and whether it calls `onLimit`
unfoldable pub collect : ℕ → Option ℕ → Option ℕ → Limiter → Limiter × Bool
unfolding collect_running
collect now cpu memory l = if l.running then collect_running now cpu memory l else (l, false)
