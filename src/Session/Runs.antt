-- ===== src/Session/Runs.antt =====
-- The counters of session/collector.go over any sequence of events from a new collector.
use datarhei_core.Prelude.{
  ℕ, ◌≡◌, refl, ap, ◌∙◌, Bool, false, List, [], ◌∷◌, String-discrete, ◌&&◌, ltb, leb, arith, ◌<◌,
  ◌^◌,
}
use datarhei_core.Prelude.Map.{IsMap, total}
use datarhei_core.Prelude.Words.{u64_small}
use datarhei_core.Session.{
  fire_stale, fire_stray, Rates, close, set_extra, set_top_rx_bitrate, set_top_tx_bitrate,
}
use datarhei_core.Session.Totals.{history_count}
use datarhei_core.Session.Collector.{
  add_companion, Collector, CollectorConfig, History, unregister, extra,
  session_set_top_ingress_bitrate, session_set_top_egress_bitrate, start, new_collector, register,
  register_and_activate, is_sessions_exceeded, session_count,
}
use datarhei_core.Session.Events.{
  Event, registers, registers_active, unregisters, activates, extends, receives, sends, sets_rx,
  sets_tx, ticks, stale_fires, stray_fires, calls_back, persists, stops, starts, accompanies, stop,
  tick_running, step, run,
}
use datarhei_core.Session.Counts.{IsCounted, pending_count, active_count}
use datarhei_core.Session.Invariant.{
  close-Keeps, fire_stale-Keeps, fire_stray-Keeps, set_extra-Keeps, set_top_rx_bitrate-Keeps,
  set_top_tx_bitrate-Keeps, tick_running-Keeps, update-IsCounted, call_back-IsCounted,
  activate-IsCounted, persist-IsCounted, start-IsCounted, register-IsCounted, ingress-IsCounted,
  egress-IsCounted,
}
use datarhei_core.Session.Stop.{IsDrained, stop-IsCounted, stop-Drained}

module _ {F W : Type 0} (rates : Rates F W) where
  step-IsCounted :
      {base : ℕ} (e : ℕ × Event F) (c : Collector F W)
      → IsCounted base c
      → IsCounted base (step rates e c)
  unfolding step add_companion unregister extra session_set_top_ingress_bitrate
      session_set_top_egress_bitrate register_and_activate
  step-IsCounted (now, registers id reference location peer pick) c k =
      register-IsCounted rates c id reference location peer pick now k
  step-IsCounted (now, registers_active id reference location peer pick) c k =
      activate-IsCounted (register rates id reference location peer pick now c) id
        (register-IsCounted rates c id reference location peer pick now k)
  step-IsCounted (now, unregisters id) c k = update-IsCounted c id close close-Keeps k
  step-IsCounted (now, activates id) c k = activate-IsCounted c id k
  step-IsCounted (now, extends id text) c k =
      update-IsCounted c id (set_extra text) (set_extra-Keeps text) k
  step-IsCounted (now, receives id size) c k = ingress-IsCounted rates c id size now k
  step-IsCounted (now, sends id size) c k = egress-IsCounted rates c id size now k
  step-IsCounted (now, sets_rx id bitrate) c k =
      update-IsCounted c id (set_top_rx_bitrate bitrate) (set_top_rx_bitrate-Keeps bitrate) k
  step-IsCounted (now, sets_tx id bitrate) c k =
      update-IsCounted c id (set_top_tx_bitrate bitrate) (set_top_tx_bitrate-Keeps bitrate) k
  step-IsCounted (now, ticks id) c k =
      update-IsCounted c id (tick_running rates) (tick_running-Keeps rates) k
  step-IsCounted (now, stale_fires id) c k =
      update-IsCounted c id (fire_stale now) (fire_stale-Keeps now) k
  step-IsCounted (now, stray_fires id) c k =
      update-IsCounted c id (fire_stray now) (fire_stray-Keeps now) k
  step-IsCounted (now, calls_back id) c k = call_back-IsCounted c id k
  step-IsCounted (now, persists ok) c k = persist-IsCounted c ok k
  step-IsCounted (now, stops ok) c k = stop-IsCounted ok c k
  step-IsCounted (now, starts) c k = start-IsCounted rates c now k
  step-IsCounted (now, accompanies co) c k = k

  new_collector-IsCounted :
      (now : ℕ) (config : CollectorConfig F) (persisted : Bool) (loaded : History)
      → IsMap String-discrete loaded
      → IsCounted (history_count loaded) (new_collector rates now config persisted loaded)
  unfolding new_collector start pending_count active_count total
  new_collector-IsCounted now config persisted loaded u = record {
    distinct = tt;
    entries = tt;
    pending = refl;
    active = refl;
    waits = refl;
    distinct_history = u;
    totals = omega arith;
  }

  -- What events, the latest first, make of a new collector.
  abbrev pub reached : ℕ → CollectorConfig F → Bool → History → List (ℕ × Event F) → Collector F W
  reached now config persisted loaded es =
      run rates (new_collector rates now config persisted loaded) es

  -- After any sequence of calls, timers, ticks and close callbacks on a new collector whose loaded
  -- history has no key twice: no identifier stands twice in the map and each session has its own;
  -- the pending and the active counter are the numbers of such sessions modulo 2^64, and the
  -- counter of `sessionsWG` is the number of all; the total, with the sessions of the loaded
  -- history, is that of the history and the active sessions modulo 2^64; and each session is
  -- closing or its timer is armed.
  pub run-IsCounted :
      (now : ℕ) (config : CollectorConfig F) (persisted : Bool) (loaded : History)
      (es : List (ℕ × Event F))
      → IsMap String-discrete loaded
      → IsCounted (history_count loaded) (reached now config persisted loaded es)
  unfolding run
  run-IsCounted now config persisted loaded [] u =
      new_collector-IsCounted now config persisted loaded u
  run-IsCounted now config persisted loaded (e ∷ es) u =
      step-IsCounted e (reached now config persisted loaded es)
        (run-IsCounted now config persisted loaded es u)

  -- After any sequence of events on a new collector whose loaded history has no key twice, `Stop`
  -- of a collector that is not stopped leaves no session, both counters and the counter that
  -- `Wait` waits for at 0, so that `Wait` returns, and a history that counts every activated
  -- session, with those of the loaded one, modulo 2^64.
  pub stop-run :
      (now : ℕ) (config : CollectorConfig F) (persisted : Bool) (loaded : History)
      (es : List (ℕ × Event F)) (ok : Bool)
      → IsMap String-discrete loaded
      → (reached now config persisted loaded es).stopped ≡ false
      → IsDrained (history_count loaded) (stop ok (reached now config persisted loaded es))
  stop-run now config persisted loaded es ok u e =
      stop-Drained (history_count loaded) ok (reached now config persisted loaded es)
        (run-IsCounted now config persisted loaded es u) e

  pub is_sessions_exceeded-run :
      (now : ℕ) (config : CollectorConfig F) (persisted : Bool) (loaded : History)
      (es : List (ℕ × Event F))
      → IsMap String-discrete loaded
      → active_count (reached now config persisted loaded es).sessions < 2 ^ 64
      → is_sessions_exceeded (reached now config persisted loaded es) ≡ (
          ltb 0 (reached now config persisted loaded es).max_sessions
          && leb
              (reached now config persisted loaded es).max_sessions
              (active_count (reached now config persisted loaded es).sessions))
  unfolding is_sessions_exceeded session_count
  is_sessions_exceeded-run now config persisted loaded es u small =
      let c = reached now config persisted loaded es in
      ap (λ n. ltb 0 c.max_sessions && leb c.max_sessions n)
        ((run-IsCounted now config persisted loaded es u).active ∙ u64_small _ small)
