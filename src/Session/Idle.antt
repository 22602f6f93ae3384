-- ===== src/Session/Idle.antt =====
-- A session of session/collector.go without traffic goes away.
use datarhei_core.Prelude.{
  ℕ, ◌≤◌, ◌≡◌, refl, ap, ◌∙◌, String, Bool, true, Option, none, some, List, String-discrete, arith,
  if_true, elim_some,
}
use datarhei_core.Prelude.Map.{
  lookup, insert, IsMap, delete, lookup-insert_self, lookup-delete_self, lookup_of_All,
}
use datarhei_core.Session.{Rates, Session, close, fire_stale}
use datarhei_core.Session.Collector.{Collector, CollectorConfig, History, update, stale_callback}
use datarhei_core.Session.Events.{Event, stale_fires, calls_back, call_back, step}
use datarhei_core.Session.Counts.{Attended, IsEntry, IsCounted}
use datarhei_core.Session.Invariant.{fire_stale-Keeps}
use datarhei_core.Session.Stop.{sessions-stale_callback}
use datarhei_core.Session.Runs.{reached, run-IsCounted}

module _ {F W : Type 0} where
  -- From some time on, the timer closes the session.
  abbrev pub ClosesFrom : ℕ → Session F W → Type 0
  ClosesFrom t s = (now : ℕ) → t ≤ now → (fire_stale now s).closing ≡ true

  fire_stale-closing :
      (s : Session F W) (o : Option ℕ) → s.stale ≡ o → Attended s → (t : ℕ) × ClosesFrom t s
  unfolding fire_stale close
  fire_stale-closing s none e a = (0, λ now l. ground arith)
  fire_stale-closing s (some t) e a = (t, λ now l. ground arith)

  -- The session of a map that is closed leaves it with its callback.
  call_back-removes :
      (id : String) (s : Session F W) (c : Collector F W)
      → lookup String-discrete id c.sessions ≡ some s
      → s.id ≡ id
      → s.closing ≡ true
      → lookup String-discrete id (call_back id c).sessions ≡ none
  unfolding call_back
  call_back-removes id s c e named closing =
      let calls = elim_some e c _ ∙ if_true closing (stale_callback s c) c in
      ap (λ (x : Collector F W). lookup String-discrete id x.sessions) calls
      ∙ ap (lookup String-discrete id)
          (sessions-stale_callback s c ∙ ap (λ k. delete String-discrete k c.sessions) named)
      ∙ lookup-delete_self String-discrete id c.sessions

  timer-removes :
      {base : ℕ} (id : String) (s : Session F W) (c : Collector F W)
      → IsCounted base c
      → lookup String-discrete id c.sessions ≡ some s
      → (t : ℕ) × ((now : ℕ)
          → t ≤ now
          → lookup String-discrete id (call_back id (update id (fire_stale now) c)).sessions ≡ none)
  unfolding update
  timer-removes id s c k e =
      let (named, attended) = lookup_of_All String-discrete IsEntry c.sessions id s k.entries e in
      let (t, closes) = fire_stale-closing s s.stale refl attended in
      (
        t,
        λ now l.
            let s' = fire_stale now s in
            let c' = record c { sessions = insert String-discrete id s' c.sessions } in
            let (same, _, _) = fire_stale-Keeps now s in
            ap (λ x. lookup String-discrete id (call_back id x).sessions) (elim_some e c _)
            ∙ call_back-removes id s' c' (lookup-insert_self String-discrete id s' c.sessions)
                (same ∙ named) (closes now l),
      )

module _ {F W : Type 0} (rates : Rates F W) where
  -- For every session in the map of a collector that any sequence of events has reached from a new
  -- one whose loaded history has no key twice, there is a time from which on the firing of its
  -- timer, followed by its close callback, takes the session out of the map.
  pub idle_session-removed :
      (start_time : ℕ) (config : CollectorConfig F) (persisted : Bool) (loaded : History)
      (es : List (ℕ × Event F)) (id : String) (s : Session F W)
      → IsMap String-discrete loaded
      → (lookup String-discrete id (reached rates start_time config persisted loaded es).sessions
          ≡ some s)
      → (t : ℕ) × ((now later : ℕ)
          → t ≤ now
          → (lookup String-discrete id
                (step rates
                  (later, calls_back id)
                  (step rates
                    (now, stale_fires id)
                    (reached rates start_time config persisted loaded es))).sessions
              ≡ none))
  unfolding step
  idle_session-removed start_time config persisted loaded es id s u e =
      let c = reached rates start_time config persisted loaded es in
      let counted = run-IsCounted rates start_time config persisted loaded es u in
      let (t, removes) = timer-removes id s c counted e in (t, λ now later l. removes now l)
