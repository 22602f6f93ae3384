-- ===== src/Session/Reuse.antt =====
-- Objects of the pool of session/collector.go that become new sessions.
use datarhei_core.Prelude.{
  ℕ, suc, ◌+◌, ◌≡◌, ◌≢◌, refl, sym, ap, ◌∙◌, subst, String, Bool, true, false, none, some, List,
  String-discrete, get_elem?, if_neg, if_false, elim_some, elim_none,
}
use datarhei_core.Prelude.Map.{lookup, insert, IsMap, lookup-insert_self}
use datarhei_core.Prelude.Words.{u64, add64, sub64}
use datarhei_core.Session.{
  Rates, Session, init, close, register_session, kept_timers, activate_session,
}
use datarhei_core.Session.Collector.{
  Collector, pick_session, register, register_and_activate, activate, activate_found, remove_at,
  unregister, update, stale_callback,
}
use datarhei_core.Session.Events.{call_back}
use datarhei_core.Session.Totals.{history_rx, history_rx-add_history}

-- A new session that keeps what `Init` does not reset of an object: its bytes, its extra data, and
-- the timers that are still armed.
pub record Inherits {F W : Type 0} (s s' : Session F W) : Type 0 where
  pub pending : s'.active ≡ false
  pub not_closing : s'.closing ≡ false
  pub same_rx : s'.rx_bytes ≡ s.rx_bytes
  pub same_tx : s'.tx_bytes ≡ s.tx_bytes
  pub same_extra : s'.extra ≡ s.extra
  pub timers : s'.strays ≡ kept_timers s.stale s.strays

module _ {F W : Type 0} (rates : Rates F W) (c : Collector F W) (i : ℕ) (s : Session F W) where
  -- The session that an object becomes.
  unfoldable reborn : String → String → String → String → ℕ → Session F W
  unfolding register_session init
  reborn id reference location peer now =
      register_session location peer
        (init rates id reference c.inactive_timeout c.session_timeout now s)

  -- What `Register` makes of the collector.
  unfoldable registered : String → String → String → String → ℕ → Collector F W
  unfolding insert reborn remove_at add64
  registered id reference location peer now = record c {
    sessions = insert String-discrete id (reborn id reference location peer now) c.sessions;
    session_pool = remove_at i c.session_pool;
    waiting = suc c.waiting;
    current_pending_sessions = add64 c.current_pending_sessions 1;
  }

  register_reused :
      (id reference location peer : String) (now : ℕ)
      → lookup String-discrete id c.sessions ≡ none
      → get_elem? c.session_pool i ≡ some s
      → (register rates id reference location peer (some i) now c
          ≡ registered id reference location peer now)
  unfolding register pick_session registered reborn
  register_reused id reference location peer now e g =
      elim_none e _ _
      ∙ ap
          (λ (p : Session F W × List (Session F W)). record c {
            sessions =
                insert String-discrete id
                  (register_session location peer
                    (init rates id reference c.inactive_timeout c.session_timeout now p.0))
                  c.sessions;
            session_pool = p.1;
            waiting = suc c.waiting;
            current_pending_sessions = add64 c.current_pending_sessions 1;
          })
          (elim_some g _ _)

  pub register-Inherits :
      (id reference location peer : String) (now : ℕ)
      → lookup String-discrete id c.sessions ≡ none
      → get_elem? c.session_pool i ≡ some s
      → (s' : Session F W) × (lookup String-discrete id
            (register rates id reference location peer (some i) now c).sessions
          ≡ some s')
        × Inherits s s'
  unfolding registered reborn register_session init
  register-Inherits id reference location peer now e g = (
    reborn id reference location peer now,
    ap (λ (c' : Collector F W). lookup String-discrete id c'.sessions)
          (register_reused id reference location peer now e g)
        ∙ lookup-insert_self String-discrete id (reborn id reference location peer now) c.sessions,
    record {
      pending = refl;
      not_closing = refl;
      same_rx = refl;
      same_tx = refl;
      same_extra = refl;
      timers = refl;
    },
  )

module _ {F W : Type 0} (id : String) (s : Session F W) (c : Collector F W) where
  activate_found_inactive :
      s.active ≡ false
      → (activate_found id s c ≡ (
        record c {
          sessions = insert String-discrete id (record s { active = true }) c.sessions;
          current_pending_sessions = sub64 c.current_pending_sessions 1;
          current_active_sessions = add64 c.current_active_sessions 1;
          total_sessions = add64 c.total_sessions 1;
        },
        true,
      ))
  unfolding activate_found activate_session
  activate_found_inactive inactive = simp (inactive)

  activate_present :
      id ≢ ""
      → lookup String-discrete id c.sessions ≡ some s
      → s.active ≡ false
      → ((activate id c).0 ≡ record c {
        sessions = insert String-discrete id (record s { active = true }) c.sessions;
        current_pending_sessions = sub64 c.current_pending_sessions 1;
        current_active_sessions = add64 c.current_active_sessions 1;
        total_sessions = add64 c.total_sessions 1;
      })
  unfolding activate activate_found activate_session
  activate_present n e inactive =
      ap (λ (r : Collector F W × Bool). r.0)
        (if_neg (String-discrete id "") n _ _ ∙ elim_some e _ _ ∙ activate_found_inactive inactive)

  -- A session that is closed and whose callback runs.
  unfoldable closed : Session F W
  closed = record s { stale = none; closing = true }

  close_present :
      lookup String-discrete id c.sessions ≡ some s
      → s.closing ≡ false
      → (call_back id (unregister id c)
          ≡ stale_callback closed
              (record c { sessions = insert String-discrete id closed c.sessions }))
  unfolding unregister update call_back close closed
  close_present e running =
      ap (call_back id) (
        elim_some e _ _
        ∙ ap (λ s'. record c { sessions = insert String-discrete id s' c.sessions })
            (if_false running s closed))
      ∙ elim_some (lookup-insert_self String-discrete id closed c.sessions) _ _

module _ {F W : Type 0} (rates : Rates F W) (c : Collector F W) (i : ℕ) (s : Session F W) where
  -- The sums of the bytes received: of the history, and of the collector itself.
  abbrev pub Overcounts : Collector F W → Type 0
  Overcounts c' =
      (u64 (history_rx c'.history) ≡ u64 (history_rx c.history + s.rx_bytes))
      × (c'.rx_bytes ≡ c.rx_bytes)

  -- When `Register` of a new identifier takes an object from the pool, and the session is
  -- activated, unregistered and closed without any traffic, the received bytes of the history grow
  -- by those that the object has kept from its earlier session, modulo 2^64, while those of the
  -- collector stay the same.
  pub reuse-Overcounts :
      (id reference location peer : String) (now : ℕ)
      → id ≢ ""
      → IsMap String-discrete c.history
      → lookup String-discrete id c.sessions ≡ none
      → get_elem? c.session_pool i ≡ some s
      → Overcounts (
          call_back id
            (unregister id (register_and_activate rates id reference location peer (some i) now c)))
  unfolding register_and_activate registered reborn register_session init stale_callback closed
  reuse-Overcounts id reference location peer now n u e g =
      let s₁ = reborn rates c i s id reference location peer now in
      let s₂ = record s₁ { active = true } in
      let c₁ = registered rates c i s id reference location peer now in
      let c₂ = record c₁ {
        sessions = insert String-discrete id s₂ c₁.sessions;
        current_pending_sessions = sub64 c₁.current_pending_sessions 1;
        current_active_sessions = add64 c₁.current_active_sessions 1;
        total_sessions = add64 c₁.total_sessions 1;
      } in
      let registers =
        ap (λ (x : Collector F W). (activate id x).0)
          (register_reused rates c i s id reference location peer now e g)
        ∙ activate_present id s₁ c₁ n (lookup-insert_self String-discrete id s₁ c.sessions) refl in
      let closes =
        close_present id s₂ c₂ (lookup-insert_self String-discrete id s₂ c₁.sessions) refl in
      subst Overcounts (sym (ap (λ x. call_back id (unregister id x)) registers ∙ closes))
        (history_rx-add_history (closed id s₂ c₂) c.history u, refl)
