-- ===== src/Session/Collector.antt =====
-- session/collector.go: the collector of sessions, its map, its counters and its history. The map
-- holds the objects themselves: no two keys share one. What the filesystem stores of the history,
-- and what `json` makes of it, are arguments.
use datarhei_core.Prelude.{
  ℕ, zero, suc, ◌-◌, String, Bool, true, false, Option, none, some, List, [], ◌∷◌, ◌++◌, get_elem?,
  ltb, leb, if◌then◌else◌, String-discrete, ite, ◌&&◌,
}
use datarhei_core.Prelude.Int.{ℤ, pos, pos_part, leb_ℤ}
use datarhei_core.Prelude.Map.{lookup, delete, insert}
use datarhei_core.Prelude.Words.{add64, sub64}
use datarhei_core.Session.{
  Rates, Session, blank_session, init, close, register_session, activate_session, set_extra,
  receive, send, set_top_rx_bitrate, set_top_tx_bitrate, to_u64, is_zero, bits,
}
use Prim.Native.String.{◌++◌ as str_append}

-- `totals`
pub record Totals : Type 0 where
  pub location : String
  pub peer : String
  pub reference : String
  pub total_sessions : ℕ
  pub total_rx_bytes : ℕ
  pub total_tx_bytes : ℕ

abbrev pub History : Type 0
History = List (String × Totals)

-- A collector as its companions see it: its bitrates at a time.
pub record Companion (F : Type 0) : Type 0 where
  pub ingress_rate : ℕ → F
  pub egress_rate : ℕ → F
  pub top_ingress_rate : ℕ → F
  pub top_egress_rate : ℕ → F

-- `collector`. `waiting` is the counter of `sessionsWG`; `stored` is the history that was written
-- last. A limit of a bitrate is `none` if it is 0.
pub record Collector (F W : Type 0) : Type 0 where
  pub sessions : List (String × Session F W)
  pub session_pool : List (Session F W)
  pub waiting : ℕ
  pub current_pending_sessions : ℕ
  pub current_active_sessions : ℕ
  pub total_sessions : ℕ
  pub rx_bytes : ℕ
  pub tx_bytes : ℕ
  pub max_rx_bitrate : Option F
  pub max_tx_bitrate : Option F
  pub max_sessions : ℕ
  pub rx_window : W
  pub tx_window : W
  pub history : History
  pub persist_enable : Bool
  pub stored : Option History
  pub inactive_timeout : ℕ
  pub session_timeout : ℕ
  pub limiter : String → Bool
  pub companions : List (Companion F)
  pub started : Bool
  pub stopped : Bool

-- `CollectorConfig`, less the interval; `limiter` is `IsAllowed` of the limiter of addresses, which
-- without one is that of `NewIPLimiter` with empty lists (`Net.Iplimit`).
pub record CollectorConfig (F : Type 0) : Type 0 where
  pub max_rx_bitrate : Option F
  pub max_tx_bitrate : Option F
  pub max_sessions : ℕ
  pub inactive_timeout : ℤ
  pub session_timeout : ℤ
  pub limiter : String → Bool

-- The defaults of `newCollector`.
abbrev pub timeout_or : ℕ → ℤ → ℕ
timeout_or default t = if leb_ℤ t (pos 0) then default else pos_part t

-- Totals that no session has been added to.
unfoldable pub zero_totals : Totals
zero_totals = record {
  location = "";
  peer = "";
  reference = "";
  total_sessions = 0;
  total_rx_bytes = 0;
  total_tx_bytes = 0;
}

-- `sess.location + ":" + sess.peer + ":" + sess.reference`
unfoldable pub history_key : String → String → String → String
history_key location peer reference =
    str_append location (str_append ":" (str_append peer (str_append ":" reference)))

-- The pool without the object that `Get` takes.
unfoldable pub remove_at {ℓ} : {A : Type ℓ} → ℕ → List A → List A
remove_at i [] = []
remove_at zero (x ∷ xs) = xs
remove_at (suc i) (x ∷ xs) = x ∷ remove_at i xs

module _ {F W : Type 0} where
  -- The totals of a session's group, with the session added.
  unfoldable pub add_totals : Session F W → Option Totals → Totals
  unfolding add64 zero_totals
  add_totals s none = record {
    location = s.location;
    peer = s.peer;
    reference = s.reference;
    total_sessions = add64 0 1;
    total_rx_bytes = add64 0 s.rx_bytes;
    total_tx_bytes = add64 0 s.tx_bytes;
  }
  add_totals s (some t) = record t {
    total_sessions = add64 t.total_sessions 1;
    total_rx_bytes = add64 t.total_rx_bytes s.rx_bytes;
    total_tx_bytes = add64 t.total_tx_bytes s.tx_bytes;
  }

  unfoldable pub add_history : Session F W → History → History
  unfolding insert lookup add_totals history_key
  add_history s h =
      let key = history_key s.location s.peer s.reference in
      insert String-discrete key (add_totals s (lookup String-discrete key h)) h

  -- `staleCallback`
  unfoldable pub stale_callback : Session F W → Collector F W → Collector F W
  unfolding delete sub64 add_history
  stale_callback s c =
      let gone = record c {
        sessions = delete String-discrete s.id c.sessions;
        waiting = c.waiting - 1;
      } in
      if s.active
      then record gone {
        history = add_history s c.history;
        session_pool = s ∷ c.session_pool;
        current_active_sessions = sub64 c.current_active_sessions 1;
      }
      else record gone { current_pending_sessions = sub64 c.current_pending_sessions 1 }

  -- The object under an identifier is replaced by what an operation makes of it.
  unfoldable pub update : String → (Session F W → Session F W) → Collector F W → Collector F W
  unfolding lookup insert
  update id f c = elim (lookup String-discrete id c.sessions) [
    | none ↦ c
    | some s ↦ record c { sessions = insert String-discrete id (f s) c.sessions }
  ]

  -- `Unregister`
  unfoldable pub unregister : String → Collector F W → Collector F W
  unfolding update close
  unregister id c = update id close c

  -- The source changes the counters without a lock; here this is one step.
  unfoldable pub activate_found : String → Session F W → Collector F W → Collector F W × Bool
  unfolding insert add64 sub64 activate_session
  activate_found id s c =
      if (activate_session s).1
      then (
        record c {
          sessions = insert String-discrete id (activate_session s).0 c.sessions;
          current_pending_sessions = sub64 c.current_pending_sessions 1;
          current_active_sessions = add64 c.current_active_sessions 1;
          total_sessions = add64 c.total_sessions 1;
        },
        true,
      )
      else (c, false)

  -- `Activate`
  unfoldable pub activate : String → Collector F W → Collector F W × Bool
  unfolding lookup activate_found
  activate id c =
      ite (String-discrete id "") (c, false)
        (elim (lookup String-discrete id c.sessions) [
          | none ↦ (c, false)
          | some s ↦ activate_found id s c
        ])

  -- `Extra`
  unfoldable pub extra : String → String → Collector F W → Collector F W
  unfolding update set_extra
  extra id text c = update id (set_extra text) c

  -- `SessionSetTopIngressBitrate` and `SessionSetTopEgressBitrate`
  unfoldable pub session_set_top_ingress_bitrate : String → F → Collector F W → Collector F W
  unfolding update set_top_rx_bitrate
  session_set_top_ingress_bitrate id bitrate c = update id (set_top_rx_bitrate bitrate) c

  unfoldable pub session_set_top_egress_bitrate : String → F → Collector F W → Collector F W
  unfolding update set_top_tx_bitrate
  session_set_top_egress_bitrate id bitrate c = update id (set_top_tx_bitrate bitrate) c

  -- `IsKnownSession`
  unfoldable pub is_known_session : String → Collector F W → Bool
  unfolding lookup
  is_known_session id c = elim (lookup String-discrete id c.sessions) [
    | none ↦ false
    | some s ↦ true
  ]

  -- `Sessions` and `IsSessionsExceeded`
  unfoldable pub session_count : Collector F W → ℕ
  session_count c = c.current_active_sessions

  unfoldable pub is_sessions_exceeded : Collector F W → Bool
  unfolding session_count
  is_sessions_exceeded c = ltb 0 c.max_sessions && leb c.max_sessions (session_count c)

  -- `IsCollectableIP`
  unfoldable pub is_collectable_ip : String → Collector F W → Bool
  is_collectable_ip ip c = c.limiter ip

  -- `AddCompanion`
  unfoldable pub add_companion : Companion F → Collector F W → Collector F W
  add_companion co c = record c { companions = c.companions ++ co ∷ [] }

  -- `Persist`: `ok` says whether the file is written.
  unfoldable pub persist : Bool → Collector F W → Collector F W
  persist ok c = if c.persist_enable && ok then record c { stored = some c.history } else c

module _ {F W : Type 0} (rates : Rates F W) where
  -- `start`
  unfoldable pub start : ℕ → Collector F W → Collector F W
  start now c = if c.started then c else record c {
    rx_window = rates.new_window now;
    tx_window = rates.new_window now;
    started = true;
    stopped = false;
  }

  -- `newCollector`: `loaded` is the history that `loadHistory` reads, `persisted` says whether there
  -- is a filesystem.
  unfoldable pub new_collector : ℕ → CollectorConfig F → Bool → History → Collector F W
  unfolding start
  new_collector now config persisted loaded =
      let timeout = timeout_or 5000000000 config.session_timeout in
      start now (record {
        sessions = [];
        session_pool = [];
        waiting = 0;
        current_pending_sessions = 0;
        current_active_sessions = 0;
        total_sessions = 0;
        rx_bytes = 0;
        tx_bytes = 0;
        max_rx_bitrate = config.max_rx_bitrate;
        max_tx_bitrate = config.max_tx_bitrate;
        max_sessions = config.max_sessions;
        rx_window = rates.new_window now;
        tx_window = rates.new_window now;
        history = loaded;
        persist_enable = persisted;
        stored = none;
        inactive_timeout = timeout_or timeout config.inactive_timeout;
        session_timeout = timeout;
        limiter = config.limiter;
        companions = [];
        started = false;
        stopped = true;
      })

  -- The object that the pool gives: one of those that were put back, or a new one.
  unfoldable pub pick_session : Option ℕ → Collector F W → Session F W × List (Session F W)
  unfolding remove_at blank_session
  pick_session none c = (blank_session rates, c.session_pool)
  pick_session (some i) c = elim (get_elem? c.session_pool i) [
    | none ↦ (blank_session rates, c.session_pool)
    | some s ↦ (s, remove_at i c.session_pool)
  ]

  -- `Register`
  unfoldable pub register :
      String → String → String → String → Option ℕ → ℕ → Collector F W → Collector F W
  unfolding lookup insert pick_session init register_session add64
  register id reference location peer pick now c = elim (lookup String-discrete id c.sessions) [
    | some s ↦ c
    | none ↦
        let fresh =
          init rates id reference c.inactive_timeout c.session_timeout now
            (pick_session pick c).0 in
        record c {
          sessions = insert String-discrete id (register_session location peer fresh) c.sessions;
          session_pool = (pick_session pick c).1;
          waiting = suc c.waiting;
          current_pending_sessions = add64 c.current_pending_sessions 1;
        }
  ]

  -- `RegisterAndActivate`
  unfoldable pub register_and_activate :
      String → String → String → String → Option ℕ → ℕ → Collector F W → Collector F W
  unfolding register activate
  register_and_activate id reference location peer pick now c =
      (activate id (register id reference location peer pick now c)).0

  unfoldable pub count_ingress : String → ℤ → ℕ → Session F W → Collector F W → Collector F W
  unfolding insert receive add64
  count_ingress id size now s c = if is_zero size then c else record c {
    sessions = insert String-discrete id (receive rates size now s) c.sessions;
    rx_window = rates.add now (bits size) c.rx_window;
    rx_bytes = add64 c.rx_bytes (to_u64 size);
  }

  -- `Ingress`
  unfoldable pub ingress : String → ℤ → ℕ → Collector F W → Collector F W
  unfolding lookup count_ingress
  ingress id size now c =
      ite (String-discrete id "") c (elim (lookup String-discrete id c.sessions) [
        | none ↦ c
        | some s ↦ count_ingress id size now s c
      ])

  unfoldable pub count_egress : String → ℤ → ℕ → Session F W → Collector F W → Collector F W
  unfolding insert send add64
  count_egress id size now s c = if is_zero size then c else record c {
    sessions = insert String-discrete id (send rates size now s) c.sessions;
    tx_window = rates.add now (bits size) c.tx_window;
    tx_bytes = add64 c.tx_bytes (to_u64 size);
  }

  -- `Egress`
  unfoldable pub egress : String → ℤ → ℕ → Collector F W → Collector F W
  unfolding lookup count_egress
  egress id size now c =
      ite (String-discrete id "") c (elim (lookup String-discrete id c.sessions) [
        | none ↦ c
        | some s ↦ count_egress id size now s c
      ])
