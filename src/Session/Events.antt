-- ===== src/Session/Events.antt =====
-- What happens to a collector of session/collector.go, one atomic step after the other: calls of its
-- methods, the timers and the ticker of a session, the close callback of a session, and `Stop`.
use datarhei_core.Prelude.{
  ℕ, String, Bool, true, false, Option, none, some, List, [], ◌∷◌, if◌then◌else◌, String-discrete,
  not, ◌&&◌,
}
use datarhei_core.Prelude.Int.{ℤ}
use datarhei_core.Prelude.Map.{lookup}
use datarhei_core.Session.{Rates, Session, tick, close, fire_stale, fire_stray}
use datarhei_core.Session.Collector.{
  Companion, add_companion, Collector, stale_callback, update, unregister, activate, extra,
  session_set_top_ingress_bitrate, session_set_top_egress_bitrate, persist, start, register,
  register_and_activate, ingress, egress,
}

pub data Event (F : Type 0) : Type 0 where
  registers registers_active : String → String → String → String → Option ℕ → Event F
  unregisters activates : String → Event F
  extends : String → String → Event F
  receives sends : String → ℤ → Event F
  sets_rx sets_tx : String → F → Event F
  ticks stale_fires stray_fires calls_back : String → Event F
  persists stops : Bool → Event F
  starts : Event F
  accompanies : Companion F → Event F

module _ {F W : Type 0} where
  -- `Cancel` of every session.
  unfoldable pub cancel_all : List (String × Session F W) → List (String × Session F W)
  unfolding close
  cancel_all [] = []
  cancel_all ((id, s) ∷ m) = (id, close s) ∷ cancel_all m

  -- `sessionsWG.Wait`: the callbacks of the sessions run.
  unfoldable pub drain : List (String × Session F W) → Collector F W → Collector F W
  unfolding stale_callback
  drain [] c = c
  drain ((id, s) ∷ m) c = drain m (stale_callback s c)

  -- The sessions are cancelled and waited for; `Register` does not come in while this waits.
  unfoldable pub close_all : Collector F W → Collector F W
  unfolding cancel_all drain
  close_all c =
      let cancelled = cancel_all c.sessions in drain cancelled (record c { sessions = cancelled })

  -- `Stop`
  unfoldable pub stop : Bool → Collector F W → Collector F W
  unfolding close_all persist
  stop ok c =
      if c.stopped then c else record (persist ok (close_all c)) { started = false; stopped = true }

  -- The callback of a session that has been closed.
  unfoldable pub call_back : String → Collector F W → Collector F W
  unfolding lookup stale_callback
  call_back id c = elim (lookup String-discrete id c.sessions) [
    | none ↦ c
    | some s ↦ if s.closing then stale_callback s c else c
  ]

module _ {F W : Type 0} (rates : Rates F W) where
  -- The ticker runs from the activation to the close.
  unfoldable pub tick_running : Session F W → Session F W
  unfolding tick
  tick_running s = if s.active && not s.closing then tick rates s else s

  unfoldable pub step : ℕ × Event F → Collector F W → Collector F W
  unfolding add_companion update tick_running fire_stale fire_stray call_back stop
  step (now, registers id reference location peer pick) c =
      register rates id reference location peer pick now c
  step (now, registers_active id reference location peer pick) c =
      register_and_activate rates id reference location peer pick now c
  step (now, unregisters id) c = unregister id c
  step (now, activates id) c = (activate id c).0
  step (now, extends id text) c = extra id text c
  step (now, receives id size) c = ingress rates id size now c
  step (now, sends id size) c = egress rates id size now c
  step (now, sets_rx id bitrate) c = session_set_top_ingress_bitrate id bitrate c
  step (now, sets_tx id bitrate) c = session_set_top_egress_bitrate id bitrate c
  step (now, ticks id) c = update id tick_running c
  step (now, stale_fires id) c = update id (fire_stale now) c
  step (now, stray_fires id) c = update id (fire_stray now) c
  step (now, calls_back id) c = call_back id c
  step (now, persists ok) c = persist ok c
  step (now, stops ok) c = stop ok c
  step (now, starts) c = start rates now c
  step (now, accompanies co) c = add_companion co c

  -- Events, the latest first.
  unfoldable pub run : Collector F W → List (ℕ × Event F) → Collector F W
  unfolding step
  run c [] = c
  run c (e ∷ es) = step e (run c es)
