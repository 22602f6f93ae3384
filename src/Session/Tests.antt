-- ===== src/Session/Tests.antt =====
-- A collector of session/collector.go at work. A window is the number of bits that were added, and
-- the average is this number.
use datarhei_core.Prelude.{
  ℕ, ◌+◌, ◌*◌, ◌/◌, ◌≡◌, ◌≤◌, refl, true, false, none, some, List, [], ◌∷◌, ltb, String-discrete,
  get_elem?,
}
use datarhei_core.Prelude.Int.{pos, pos_part}
use datarhei_core.Prelude.Map.{lookup, insert, delete, total, IsMap}
use datarhei_core.Prelude.Words.{u64, add64, sub64}
use datarhei_core.Session.{
  to_u64, Rates, Session, blank_session, init, register_session, receive, close, activate_session,
  kept_timers,
}
use datarhei_core.Session.Collector.{
  Collector, CollectorConfig, History, new_collector, start, register, activate, activate_found,
  unregister, update, stale_callback, register_and_activate, ingress, count_ingress, pick_session,
}
use datarhei_core.Session.Events.{
  Event, registers, registers_active, receives, unregisters, calls_back, stale_fires, stop,
  call_back, step, run,
}
use datarhei_core.Session.Totals.{history_count}
use datarhei_core.Session.Counts.{IsCounted, active_count}
use datarhei_core.Session.Stop.{IsDrained}
use datarhei_core.Session.Runs.{reached, run-IsCounted, stop-run}
use datarhei_core.Session.Summary.{sum_history, zero_sums, summary}
use datarhei_core.Session.Sums.{Balanced, rx_measure, sum_history-Balanced, summary-stop}
use datarhei_core.Session.Reuse.{Overcounts, reuse-Overcounts}
use datarhei_core.Session.Idle.{idle_session-removed}

abbrev rates : Rates ℕ ℕ
rates = record {
  zero_rate = 0;
  above = λ a b. ltb b a;
  plus = λ a b. a + b;
  decay = λ a. a * 95 / 100;
  new_window = λ now. 0;
  add = λ now n w. w + pos_part n;
  average = λ now w. w;
}

abbrev config : CollectorConfig ℕ
config = record {
  max_rx_bitrate = none;
  max_tx_bitrate = none;
  max_sessions = 2;
  inactive_timeout = pos 30;
  session_timeout = pos 60;
  limiter = λ ip. true;
}

abbrev loaded : History
loaded =
    (
      "l:p:r",
      record {
        location = "l";
        peer = "p";
        reference = "r";
        total_sessions = 3;
        total_rx_bytes = 500;
        total_tx_bytes = 0;
      },
    )
    ∷ (
      "m:p:r",
      record {
        location = "m";
        peer = "p";
        reference = "r";
        total_sessions = 1;
        total_rx_bytes = 70;
        total_tx_bytes = 20;
      },
    )
    ∷ []

-- One active session with 100 bytes, and one that is pending; the latest event first.
abbrev events : List (ℕ × Event ℕ)
events =
    (12, registers "b" "r" "l" "q" none)
    ∷ (11, receives "a" (pos 100))
    ∷ (10, registers_active "a" "r" "l" "" none)
    ∷ []

abbrev collector : Collector ℕ ℕ
collector = reached rates 5 config true loaded events

loaded-IsMap : IsMap String-discrete loaded
unfolding lookup String-discrete
loaded-IsMap = (refl, (refl, tt))

run-IsCounted_example : IsCounted (history_count loaded) collector
run-IsCounted_example = run-IsCounted rates 5 config true loaded events loaded-IsMap

collector_runs : collector.stopped ≡ false
unfolding run step new_collector start register register_and_activate activate activate_found
    ingress count_ingress lookup insert delete String-discrete
collector_runs = refl

stop-run_example : IsDrained (history_count loaded) (stop true collector)
stop-run_example = stop-run rates 5 config true loaded events true loaded-IsMap collector_runs

sum_history-Balanced_example :
    Balanced rx_measure
      (sum_history zero_sums loaded)
      (total String-discrete rx_measure.of_totals loaded)
sum_history-Balanced_example = sum_history-Balanced rx_measure loaded

summary-stop_example :
    (u64 (summary rates 20 (stop true collector)).summary.stats.total_sessions
      ≡ u64 ((stop true collector).total_sessions + history_count loaded))
summary-stop_example =
    summary-stop rates 5 20 config true loaded events true loaded-IsMap collector_runs

-- A session of 100 bytes is closed, and its object is in the pool.
abbrev closed_events : List (ℕ × Event ℕ)
closed_events = (20, calls_back "a") ∷ (19, unregisters "a") ∷ events

abbrev used : Collector ℕ ℕ
used = reached rates 5 config true loaded closed_events

abbrev pooled : Session ℕ ℕ
pooled = record {
  id = "a";
  reference = "r";
  created_at = 10;
  active = true;
  location = "l";
  peer = "unknown";
  extra = "";
  stale = none;
  strays = [];
  timeout = 60;
  closing = true;
  rx_window = 800;
  rx_bytes = 100;
  tx_window = 0;
  tx_bytes = 0;
  top_rx_bitrate = 800;
  top_tx_bitrate = 0;
  max_rx_bitrate = 800;
  max_tx_bitrate = 0;
}

-- The object is in the pool, the identifier is free again, and the history has no key twice.
used_object :
    (get_elem? used.session_pool 0 ≡ some pooled)
    × (lookup String-discrete "a" used.sessions ≡ none)
unfolding run step new_collector start register register_and_activate activate activate_found
    ingress count_ingress lookup insert delete String-discrete unregister update close call_back
    stale_callback init register_session receive blank_session pick_session activate_session add64
    sub64 to_u64 kept_timers
used_object = (refl, refl)

used-IsMap : IsMap String-discrete used.history
used-IsMap = (run-IsCounted rates 5 config true loaded closed_events loaded-IsMap).distinct_history

reuse-Overcounts_example :
    Overcounts rates used 0 pooled (
      call_back "a" (unregister "a" (register_and_activate rates "a" "r" "l" "q" (some 0) 30 used)))
reuse-Overcounts_example =
    reuse-Overcounts rates used 0 pooled "a" "r" "l" "q" 30 (λ e. cc e) used-IsMap used_object.1
      used_object.0

collector_counts : active_count collector.sessions ≡ 1
unfolding run step new_collector start register register_and_activate activate activate_found
    ingress count_ingress lookup insert delete String-discrete active_count total init
    register_session receive activate_session blank_session pick_session
collector_counts = refl

-- The session "b", before it is activated.
abbrev pending : Session ℕ ℕ
pending = record {
  id = "b";
  reference = "r";
  created_at = 12;
  active = false;
  location = "l";
  peer = "q";
  extra = "";
  stale = some 42;
  strays = [];
  timeout = 60;
  closing = false;
  rx_window = 0;
  rx_bytes = 0;
  tx_window = 0;
  tx_bytes = 0;
  top_rx_bitrate = 0;
  top_tx_bitrate = 0;
  max_rx_bitrate = 0;
  max_tx_bitrate = 0;
}

pending_found : lookup String-discrete "b" collector.sessions ≡ some pending
unfolding run step new_collector start register register_and_activate activate activate_found
    ingress count_ingress lookup insert delete String-discrete init register_session receive
    activate_session blank_session pick_session kept_timers
pending_found = refl

idle_session-removed_example :
    (t : ℕ) × ((now later : ℕ)
      → t ≤ now
      → (lookup String-discrete "b"
            (step rates
              (later, calls_back "b")
              (step rates (now, stale_fires "b") collector)).sessions
          ≡ none))
idle_session-removed_example =
    idle_session-removed rates 5 config true loaded events "b" pending loaded-IsMap pending_found
