-- ===== src/Session/Invariant.antt =====
-- Every event of session/collector.go keeps the counters, the map and the timers in step.
use datarhei_core.Prelude.{
  ℕ, ◌≡◌, refl, ap, ◌∙◌, String, Bool, Option, some, String-discrete, arith, some-cases, ite-cases,
  if-cases, Bool-cases, inl, inr,
}
use datarhei_core.Prelude.Int.{ℤ}
use datarhei_core.Prelude.Map.{lookup, lookup_of_All}
use datarhei_core.Session.{
  Rates, Session, init, close, register_session, activate_session, set_extra, receive, send,
  set_top_rx_bitrate, set_top_tx_bitrate, is_zero, tick, fire_stale, fire_stray,
}
use datarhei_core.Session.Totals.{add_history-IsMap, history_count-add_history}
use datarhei_core.Session.Collector.{
  Collector, stale_callback, update, activate, activate_found, persist, start, register, ingress,
  egress, count_ingress, count_egress,
}
use datarhei_core.Session.Events.{call_back, tick_running}
use datarhei_core.Session.Counts.{
  Attended, IsEntry, IsCounted, Counted-replace, Counted-add, Counted-activate, Counted-drop,
  Counted-archive,
}

-- What an operation on a session leaves alone.
abbrev pub Keeps : {F W : Type 0} → (Session F W → Session F W) → Type 0
Keeps {F = F} {W = W} f =
    (s : Session F W)
    → ((f s).id ≡ s.id) × ((f s).active ≡ s.active) × (Attended s → Attended (f s))

module _ {F W : Type 0} where
  pub close-Keeps : Keeps {F = F} {W = W} close
  unfolding close
  close-Keeps s = (ground arith, ground arith, ground arith)

  pub fire_stale-Keeps : (now : ℕ) → Keeps {F = F} {W = W} (fire_stale now)
  unfolding close fire_stale
  fire_stale-Keeps now s = (ground arith, ground arith, ground arith)

  pub fire_stray-Keeps : (now : ℕ) → Keeps {F = F} {W = W} (fire_stray now)
  unfolding close fire_stray
  fire_stray-Keeps now s = (ground arith, ground arith, ground arith)

  pub set_extra-Keeps : (text : String) → Keeps {F = F} {W = W} (set_extra text)
  unfolding set_extra
  set_extra-Keeps text s = (refl, refl, λ a. a)

  pub set_top_rx_bitrate-Keeps : (bitrate : F) → Keeps {F = F} {W = W} (set_top_rx_bitrate bitrate)
  unfolding set_top_rx_bitrate
  set_top_rx_bitrate-Keeps bitrate s = (refl, refl, λ a. a)

  pub set_top_tx_bitrate-Keeps : (bitrate : F) → Keeps {F = F} {W = W} (set_top_tx_bitrate bitrate)
  unfolding set_top_tx_bitrate
  set_top_tx_bitrate-Keeps bitrate s = (refl, refl, λ a. a)

module _ {F W : Type 0} (rates : Rates F W) where
  pub tick_running-Keeps : Keeps (tick_running rates)
  unfolding tick_running tick
  tick_running-Keeps s = (ground arith, ground arith, ground arith)

  receive-Keeps : (size : ℤ) (now : ℕ) → Keeps (receive rates size now)
  unfolding receive
  receive-Keeps size now s = (refl, refl, λ a. ground arith)

  send-Keeps : (size : ℤ) (now : ℕ) → Keeps (send rates size now)
  unfolding send
  send-Keeps size now s = (refl, refl, λ a. ground arith)

module _ {F W : Type 0} {base : ℕ} (c : Collector F W) where
  pub update-IsCounted :
      (id : String) (f : Session F W → Session F W)
      → Keeps f
      → IsCounted base c
      → IsCounted base (update id f c)
  unfolding update
  update-IsCounted id f keeps k =
      some-cases (IsCounted base) (lookup String-discrete id c.sessions) _ _ (λ e. k)
        (λ s e.
          let entry = lookup_of_All String-discrete IsEntry c.sessions id s k.entries e in
          let (i, a, t) = keeps s in Counted-replace id c.sessions s (f s) e i a (t entry.1) k)

  -- The callback of a session of the map.
  pub stale_callback-IsCounted :
      (id : String) (s : Session F W)
      → lookup String-discrete id c.sessions ≡ some s
      → IsCounted base c
      → IsCounted base (stale_callback s c)
  unfolding stale_callback
  stale_callback-IsCounted id s e k =
      let entry = lookup_of_All String-discrete IsEntry c.sessions id s k.entries e in
      let e' = ap (λ x. lookup String-discrete x c.sessions) entry.0 ∙ e in
      elim (Bool-cases s.active) [
        | inl a ↦ rw a (
            Counted-archive s.id c.sessions s e' a
              (add_history-IsMap s c.history k.distinct_history)
              (history_count-add_history s c.history k.distinct_history) k)
        | inr i ↦ rw i (Counted-drop s.id c.sessions s e' i k)
      ]

  pub call_back-IsCounted : (id : String) → IsCounted base c → IsCounted base (call_back id c)
  unfolding call_back
  call_back-IsCounted id k =
      some-cases (IsCounted base) (lookup String-discrete id c.sessions) _ _ (λ e. k)
        (λ s e.
          if-cases (IsCounted base) s.closing _ _ (λ x. stale_callback-IsCounted id s e k) (λ x. k))

  pub activate_found-IsCounted :
      (id : String) (s : Session F W)
      → lookup String-discrete id c.sessions ≡ some s
      → IsCounted base c
      → IsCounted base (activate_found id s c).0
  unfolding activate_found activate_session
  activate_found-IsCounted id s e k = elim (Bool-cases s.active) [
    | inl a ↦ rw a k
    | inr i ↦ rw i (Counted-activate id c.sessions s e i k)
  ]

  pub activate-IsCounted : (id : String) → IsCounted base c → IsCounted base (activate id c).0
  unfolding activate
  activate-IsCounted id k =
      ite-cases (λ (r : Collector F W × Bool). IsCounted base r.0) (String-discrete id "") _ _
        (λ p. k)
        (λ n.
          some-cases (λ (r : Collector F W × Bool). IsCounted base r.0)
            (lookup String-discrete id c.sessions) _ _ (λ e. k)
            (λ s e. activate_found-IsCounted id s e k))

  pub persist-IsCounted : (ok : Bool) → IsCounted base c → IsCounted base (persist ok c)
  unfolding persist
  persist-IsCounted ok k = if-cases (IsCounted base) _ _ _ (λ e. k) (λ e. k)

module _ {F W : Type 0} (rates : Rates F W) {base : ℕ} (c : Collector F W) where
  pub start-IsCounted : (now : ℕ) → IsCounted base c → IsCounted base (start rates now c)
  unfolding start
  start-IsCounted now k = if-cases (IsCounted base) c.started _ _ (λ e. k) (λ e. k)

  pub register-IsCounted :
      (id reference location peer : String) (pick : Option ℕ) (now : ℕ)
      → IsCounted base c
      → IsCounted base (register rates id reference location peer pick now c)
  unfolding register register_session init
  register-IsCounted id reference location peer pick now k =
      some-cases (IsCounted base) (lookup String-discrete id c.sessions) _ _
        (λ e. Counted-add id c.sessions _ e refl refl refl k) (λ s e. k)

  pub count_ingress-IsCounted :
      (id : String) (size : ℤ) (now : ℕ) (s : Session F W)
      → lookup String-discrete id c.sessions ≡ some s
      → IsCounted base c
      → IsCounted base (count_ingress rates id size now s c)
  unfolding count_ingress
  count_ingress-IsCounted id size now s e k =
      if-cases (IsCounted base) (is_zero size) _ _ (λ z. k)
        (λ z.
          let entry = lookup_of_All String-discrete IsEntry c.sessions id s k.entries e in
          let (i, a, t) = receive-Keeps rates size now s in
          Counted-replace id c.sessions s (receive rates size now s) e i a (t entry.1) k)

  pub ingress-IsCounted :
      (id : String) (size : ℤ) (now : ℕ)
      → IsCounted base c
      → IsCounted base (ingress rates id size now c)
  unfolding ingress
  ingress-IsCounted id size now k =
      ite-cases (IsCounted base) (String-discrete id "") _ _ (λ p. k)
        (λ n.
          some-cases (IsCounted base) (lookup String-discrete id c.sessions) _ _ (λ e. k)
            (λ s e. count_ingress-IsCounted id size now s e k))

  pub count_egress-IsCounted :
      (id : String) (size : ℤ) (now : ℕ) (s : Session F W)
      → lookup String-discrete id c.sessions ≡ some s
      → IsCounted base c
      → IsCounted base (count_egress rates id size now s c)
  unfolding count_egress
  count_egress-IsCounted id size now s e k =
      if-cases (IsCounted base) (is_zero size) _ _ (λ z. k)
        (λ z.
          let entry = lookup_of_All String-discrete IsEntry c.sessions id s k.entries e in
          let (i, a, t) = send-Keeps rates size now s in
          Counted-replace id c.sessions s (send rates size now s) e i a (t entry.1) k)

  pub egress-IsCounted :
      (id : String) (size : ℤ) (now : ℕ)
      → IsCounted base c
      → IsCounted base (egress rates id size now c)
  unfolding egress
  egress-IsCounted id size now k =
      ite-cases (IsCounted base) (String-discrete id "") _ _ (λ p. k)
        (λ n.
          some-cases (IsCounted base) (lookup String-discrete id c.sessions) _ _ (λ e. k)
            (λ s e. count_egress-IsCounted id size now s e k))
