-- ===== src/Session/Stop.antt =====
-- `Stop` of session/collector.go, and the counters over any sequence of events.
use datarhei_core.Prelude.{
  ℕ, ◌+◌, ◌≡◌, refl, sym, ap, ap₂, ◌∙◌, subst, String, Bool, true, false, none, some, List, [], ◌∷◌,
  if◌then◌else◌, String-discrete, ◌&&◌, arith, All, if-cases, if_pos,
}
use datarhei_core.Prelude.Map.{lookup, delete, IsMap, total, delete_absent}
use datarhei_core.Prelude.Words.{u64}
use datarhei_core.Session.{Session}
use datarhei_core.Session.Totals.{history_count}
use datarhei_core.Session.Collector.{Collector, History, stale_callback, persist}
use datarhei_core.Session.Events.{cancel_all, drain, close_all, stop}
use datarhei_core.Session.Counts.{IsEntry, IsCounted, Counted, pending_count, active_count}
use datarhei_core.Session.Invariant.{close-Keeps, stale_callback-IsCounted, persist-IsCounted}

-- After `Stop` no session is left, the counters of the sessions are 0, `Wait` waits for nothing,
-- and the history counts every session that was activated.
pub record Drained {F W : Type 0} (base : ℕ) (m : List (String × Session F W)) (h : History)
    (pending_counter active_counter total_counter waiting : ℕ) : Type 0 where
  pub no_sessions : m ≡ []
  pub none_pending : pending_counter ≡ 0
  pub none_active : active_counter ≡ 0
  pub none_waits : waiting ≡ 0
  pub archived : u64 (total_counter + base) ≡ u64 (history_count h)

abbrev pub IsDrained : {F W : Type 0} → ℕ → Collector F W → Type 0
IsDrained base c =
    Drained base c.sessions c.history c.current_pending_sessions c.current_active_sessions
      c.total_sessions c.waiting

module _ {F W : Type 0} where
  lookup-cancel_all :
      (id : String) (m : List (String × Session F W))
      → lookup String-discrete id m ≡ none
      → lookup String-discrete id (cancel_all m) ≡ none
  unfolding lookup cancel_all
  lookup-cancel_all id [] e = refl
  lookup-cancel_all id ((j, s) ∷ m) e = ground (arith, lookup-cancel_all id m)

  cancel_all-IsMap :
      (m : List (String × Session F W))
      → IsMap String-discrete m
      → IsMap String-discrete (cancel_all m)
  unfolding cancel_all
  cancel_all-IsMap [] u = tt
  cancel_all-IsMap ((j, s) ∷ m) u = (lookup-cancel_all j m u.0, cancel_all-IsMap m u.1)

  cancel_all-entries :
      (m : List (String × Session F W)) → All IsEntry m → All IsEntry (cancel_all m)
  unfolding cancel_all
  cancel_all-entries [] a = tt
  cancel_all-entries ((j, s) ∷ m) a =
      let (i, _, t) = close-Keeps s in ((i ∙ a.0.0, t a.0.1), cancel_all-entries m a.1)

  cancel_all_counts :
      (m : List (String × Session F W))
      → (pending_count (cancel_all m) ≡ pending_count m)
        × (active_count (cancel_all m) ≡ active_count m)
  unfolding cancel_all pending_count active_count total
  cancel_all_counts [] = (refl, refl)
  cancel_all_counts ((j, s) ∷ m) =
      let (p, a) = cancel_all_counts m in
      let (_, alike, _) = close-Keeps s in
      (ap₂ (λ b n. (if b then 0 else 1) + n) alike p, ap₂ (λ b n. (if b then 1 else 0) + n) alike a)

  cancel_all-Counted :
      {base p a t w : ℕ} {h : History} (m : List (String × Session F W))
      → Counted base m h p a t w
      → Counted base (cancel_all m) h p a t w
  cancel_all-Counted m k =
      let (p, a) = cancel_all_counts m in
      record {
        distinct = cancel_all-IsMap m k.distinct;
        entries = cancel_all-entries m k.entries;
        pending = k.pending ∙ ap u64 (sym p);
        active = k.active ∙ ap u64 (sym a);
        waits = k.waits ∙ ap₂ (λ x y. x + y) (sym p) (sym a);
        distinct_history = k.distinct_history;
        totals = omega (arith, k.totals);
      }

  pub sessions-stale_callback :
      (s : Session F W) (c : Collector F W)
      → (stale_callback s c).sessions ≡ delete String-discrete s.id c.sessions
  unfolding stale_callback
  sessions-stale_callback s c = ground arith

  lookup_first :
      (id : String) (s : Session F W) (m : List (String × Session F W))
      → lookup String-discrete id ((id, s) ∷ m) ≡ some s
  unfolding lookup
  lookup_first id s m = if_pos (String-discrete id id) refl _ _

  delete_first :
      (id : String) (s : Session F W) (m : List (String × Session F W))
      → lookup String-discrete id m ≡ none
      → delete String-discrete id ((id, s) ∷ m) ≡ m
  unfolding delete
  delete_first id s m e =
      if_pos (String-discrete id id) refl _ _ ∙ delete_absent String-discrete id m e

  drain-IsCounted :
      {base : ℕ} (m : List (String × Session F W)) (c : Collector F W)
      → c.sessions ≡ m
      → IsCounted base c
      → IsCounted base (drain m c) × ((drain m c).sessions ≡ [])
  unfolding drain
  drain-IsCounted [] c e k = (k, e)
  drain-IsCounted ((id, s) ∷ m) c e k =
      let named = (subst (All IsEntry) e k.entries).0.0 in
      let alone = (subst (IsMap String-discrete) e k.distinct).0 in
      let here = ap (lookup String-discrete id) e ∙ lookup_first id s m in
      let left =
        sessions-stale_callback s c
        ∙ ap₂ (delete String-discrete) named e
        ∙ delete_first id s m alone in
      drain-IsCounted m (stale_callback s c) left (stale_callback-IsCounted c id s here k)

  close_all-IsCounted :
      {base : ℕ} (c : Collector F W)
      → IsCounted base c
      → IsCounted base (close_all c) × ((close_all c).sessions ≡ [])
  unfolding close_all
  close_all-IsCounted c k =
      let cancelled = cancel_all c.sessions in
      drain-IsCounted cancelled (record c { sessions = cancelled }) refl
        (cancel_all-Counted c.sessions k)

  pub stop-IsCounted :
      {base : ℕ} (ok : Bool) (c : Collector F W) → IsCounted base c → IsCounted base (stop ok c)
  unfolding stop
  stop-IsCounted {base = base} ok c k =
      if-cases (IsCounted base) c.stopped _ _ (λ e. k)
        (λ e. persist-IsCounted (close_all c) ok (close_all-IsCounted c k).0)

  close_all-Drained :
      (base : ℕ) (c : Collector F W) → IsCounted base c → IsDrained base (close_all c)
  unfolding pending_count active_count total
  close_all-Drained base c k =
      let (k', e) = close_all-IsCounted c k in
      let p : pending_count (close_all c).sessions ≡ 0 = ap pending_count e in
      let a : active_count (close_all c).sessions ≡ 0 = ap active_count e in
      record {
        no_sessions = e;
        none_pending = omega (arith, k'.pending);
        none_active = omega (arith, k'.active);
        none_waits = omega (arith, k'.waits);
        archived = omega (arith, k'.totals);
      }

  -- Stopping a collector whose counters are right.
  pub stop-Drained :
      (base : ℕ) (ok : Bool) (c : Collector F W)
      → IsCounted base c
      → c.stopped ≡ false
      → IsDrained base (stop ok c)
  unfolding stop persist
  stop-Drained base ok c k e =
      let d = close_all-Drained base c k in
      let P : Collector F W → Type 0 = IsDrained base in
      if-cases P c.stopped _ _ (λ stopped. cc (stopped, e))
        (λ x.
          if-cases (λ (c' : Collector F W). P (record c' { started = false; stopped = true }))
            ((close_all c).persist_enable && ok) _ _ (λ x. d) (λ x. d))
