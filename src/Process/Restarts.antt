-- ===== src/Process/Restarts.antt =====
-- Automatic restarts in process/process.go, and calls that come in between.
use datarhei_core.Prelude.{ℕ, suc, ◌+◌, ◌≤◌, ◌≡◌, ap, ◌∙◌, Bool, true, false, [], ◌∷◌, arith}
use datarhei_core.Process.{start, stop, running, is_running, armed, Exit, Process, set_state}
use datarhei_core.Process.Ops.{
  unreconnect, reconnect, launched, start_stopped, start_process, start_call, send, stop_process,
  stop_call, waiter, waiter_tail, Launch, unreachable,
}
use datarhei_core.Process.Machine.{
  starts, stops, timer_fires, restart_runs, child_exits, waiter_runs, tail_runs, fire, run_restart,
  exit_child, run_waiter, run_tail, step, run,
}

-- The process is as `New` and `Start` leave it.
pub record Steady (p : Process) : Type 0 where
  pub ordered : p.order ≡ start
  pub running_state : p.state ≡ running
  pub enabled : p.reconn_enable ≡ true
  pub one_child : p.alive ≡ 1
  pub no_waiter : p.exited ≡ []
  pub no_tail : p.tails ≡ 0
  pub no_restart : p.restarts ≡ 0

module _ (l : Launch) (fine : (l.pipe_fails ≡ false) × (l.start_fails ≡ false)) where
  -- When the pipe and the command do not fail: the function of a restart timer that has fired
  -- starts a child in a process that does not run, also if the order has become to stop, and the
  -- order stays to stop.
  pub restart_runs-ignores_order :
      (now n : ℕ) (p : Process)
      → p.order ≡ stop
      → is_running p.state ≡ false
      → p.restarts ≡ suc n
      → let q = step (now, restart_runs l) p in
        (q.state ≡ running) × (q.order ≡ stop) × (q.alive ≡ suc p.alive)
  unfolding step run_restart start_process start_stopped launched set_state unreconnect
  restart_runs-ignores_order now n p o r z = ground arith

  restart-running :
      (now n : ℕ) (p : Process)
      → p.order ≡ start
      → is_running p.state ≡ false
      → p.restarts ≡ suc n
      → let q = step (now, restart_runs l) p in
        (q.state ≡ running) × (q.order ≡ start) × (q.alive ≡ suc p.alive)
  unfolding step run_restart start_process start_stopped launched set_state unreconnect
  restart-running now n p o r z = ground arith

  -- The child of the running process `p` ends at time `t`; its waiter goes on.
  ended : ℕ → Exit → Process → Process
  ended t e p = step (t, tail_runs) (step (t, waiter_runs) (step (t, child_exits e) p))

  ended_armed :
      (t : ℕ) (e : Exit) (p : Process)
      → Steady p
      → let q = ended t e p in
        (q.order ≡ start)
        × (is_running q.state ≡ false)
        × (q.timer ≡ armed (t + p.reconn_delay))
        × (q.restarts ≡ 0)
        × (q.alive ≡ 0)
  unfolding ended step exit_child run_waiter run_tail waiter waiter_tail reconnect set_state
      unreconnect
  ended_armed t e p s = ground arith

  fired :
      (q : Process) (d t : ℕ)
      → q.timer ≡ armed d
      → d ≤ t
      → q.restarts ≡ 0
      → let r = step (t, timer_fires) q in
        (r.order ≡ q.order) × (r.state ≡ q.state) × (r.alive ≡ q.alive) × (r.restarts ≡ 1)
  unfolding step fire
  fired q d t a h z = ground arith

  -- When the pipe and the command do not fail: a process with the order to start, reconnect
  -- enabled, one child and no other goroutine under way (`Steady`) has one running child and the
  -- order to start again after its child has ended in any way, the waiter has run, the timer has
  -- fired at a time not before the delay is over, and its function has run.
  pub restarts_after_exit :
      (t t' t'' : ℕ) (e : Exit) (p : Process)
      → Steady p
      → t + p.reconn_delay ≤ t'
      → let q =
          run
            ((t, child_exits e)
              ∷ (t, waiter_runs)
              ∷ (t, tail_runs)
              ∷ (t', timer_fires)
              ∷ (t'', restart_runs l)
              ∷ [])
            p in
        (q.state ≡ running) × (q.order ≡ start) × (q.alive ≡ 1)
  unfolding run ended
  restarts_after_exit t t' t'' e p s h =
      let (o, r, a, z, c) = ended_armed t e p s in
      let q = ended t e p in
      let (o', r', a', z') = fired q (t + p.reconn_delay) t' a h z in
      let (x, y, w) =
        restart-running t'' 0 (step (t', timer_fires) q) (o' ∙ o) (ap is_running r' ∙ r) z' in
      (x, y, w ∙ ap suc (a' ∙ c))

  -- `Stop` and `Start` come between the end of `cmd.Wait` and the transition of the waiter.
  overtaken : ℕ → Exit → Bool → Process → Process
  overtaken t e wait p =
      step (t, starts l) (step (t, stops wait unreachable) (step (t, child_exits e) p))

  refused :
      (t : ℕ) (e : Exit) (wait : Bool) (p : Process)
      → Steady p
      → let q = step (t, stops wait unreachable) (step (t, child_exits e) p) in
        (q.order ≡ stop)
        × (is_running q.state ≡ false)
        × (q.alive ≡ 0)
        × (q.exited ≡ e ∷ [])
        × (q.tails ≡ 0)
        × (q.restarts ≡ 0)
        × (q.reconn_enable ≡ true)
        × (q.reconn_delay ≡ p.reconn_delay)
  unfolding step exit_child stop_call stop_process send set_state unreconnect
  refused t e wait p s = ground arith

  started_again :
      (t : ℕ) (q : Process)
      → q.order ≡ stop
      → is_running q.state ≡ false
      → let r = step (t, starts l) q in
        (r.order ≡ start)
        × (r.state ≡ running)
        × (r.alive ≡ suc q.alive)
        × (r.exited ≡ q.exited)
        × (r.tails ≡ q.tails)
        × (r.restarts ≡ q.restarts)
        × (r.reconn_enable ≡ q.reconn_enable)
        × (r.reconn_delay ≡ q.reconn_delay)
  unfolding step start_call start_process start_stopped launched set_state unreconnect
  started_again t q o r = ground arith

  overtaken_state :
      (t : ℕ) (e : Exit) (wait : Bool) (p : Process)
      → Steady p
      → let q = overtaken t e wait p in
        (q.order ≡ start)
        × (q.state ≡ running)
        × (q.alive ≡ 1)
        × (q.exited ≡ e ∷ [])
        × (q.tails ≡ 0)
        × (q.restarts ≡ 0)
        × (q.reconn_enable ≡ true)
        × (q.reconn_delay ≡ p.reconn_delay)
  unfolding overtaken
  overtaken_state t e wait p s =
      let (o, r, a, x, k, z, n, d) = refused t e wait p s in
      let (o1, r1, a1, x1, k1, z1, n1, d1) =
        started_again t (step (t, stops wait unreachable) (step (t, child_exits e) p)) o r in
      (o1, r1, a1 ∙ ap suc a, x1 ∙ x, k1 ∙ k, z1 ∙ z, n1 ∙ n, d1 ∙ d)

  late_waiter :
      (t : ℕ) (e : Exit) (q : Process)
      → q.order ≡ start
      → q.state ≡ running
      → q.exited ≡ e ∷ []
      → q.tails ≡ 0
      → q.restarts ≡ 0
      → q.reconn_enable ≡ true
      → let r = step (t, tail_runs) (step (t, waiter_runs) q) in
        (r.order ≡ start)
        × (is_running r.state ≡ false)
        × (r.timer ≡ armed (t + q.reconn_delay))
        × (r.restarts ≡ 0)
        × (r.alive ≡ q.alive)
  unfolding step run_waiter run_tail waiter waiter_tail reconnect set_state unreconnect
  late_waiter t e q o r x k z n = ground arith

  -- When the pipe and the command do not fail: from a `Steady` process, if after the end of the
  -- child, and before its waiter runs, a `Stop` whose signal fails and a `Start` come in, then the
  -- late waiter and the restart that it schedules lead to two running children.
  pub overtaken-two_children :
      (t t' : ℕ) (e : Exit) (wait : Bool) (p : Process)
      → Steady p
      → t + p.reconn_delay ≤ t'
      → (run
          ((t, child_exits e)
            ∷ (t, stops wait unreachable)
            ∷ (t, starts l)
            ∷ (t, waiter_runs)
            ∷ (t, tail_runs)
            ∷ (t', timer_fires)
            ∷ (t', restart_runs l)
            ∷ [])
          p).alive
        ≡ 2
  unfolding run overtaken
  overtaken-two_children t t' e wait p s h =
      let q = overtaken t e wait p in
      let (o, r, c, x, k, z, n, d) = overtaken_state t e wait p s in
      let (o1, r1, a1, z1, c1) = late_waiter t e q o r x k z n in
      let q1 = step (t, tail_runs) (step (t, waiter_runs) q) in
      let (o2, r2, c2, z2) = fired q1 (t + q.reconn_delay) t' a1 (rw d h) z1 in
      let (x3, y3, c3) =
        restart-running t' 0 (step (t', timer_fires) q1) (o2 ∙ o1) (ap is_running r2 ∙ r1) z2 in
      c3 ∙ ap suc (c2 ∙ c1 ∙ c)
