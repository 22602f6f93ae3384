-- ===== src/Session/Counts.antt =====
-- The counters of session/collector.go over any sequence of events.
use datarhei_core.Prelude.{
  ℕ, suc, ◌+◌, ◌-◌, ◌≡◌, sym, ap, ap₂, ◌∙◌, String, Bool, true, false, Option, none, some, List,
  if◌then◌else◌, String-discrete, ◌||◌, arith, All,
}
use datarhei_core.Prelude.Map.{
  lookup, delete, insert, IsMap, total, total-delete, total-insert, insert-IsMap, delete-IsMap,
  All-insert, All-delete, lookup_of_All, delete_absent,
}
use datarhei_core.Prelude.Words.{u64, add64, sub64}
use datarhei_core.Session.{Session}
use datarhei_core.Session.Totals.{history_count}
use datarhei_core.Session.Collector.{Collector, History}

abbrev pub is_armed : Option ℕ → Bool
is_armed none = false
is_armed (some t) = true

module _ {F W : Type 0} where
  -- The sessions of a map that are not active, and those that are.
  abbrev pub pending_weight : Session F W → ℕ
  pending_weight s = if s.active then 0 else 1

  abbrev pub active_weight : Session F W → ℕ
  active_weight s = if s.active then 1 else 0

  unfoldable pub pending_count : List (String × Session F W) → ℕ
  unfolding total
  pending_count m = total String-discrete pending_weight m

  unfoldable pub active_count : List (String × Session F W) → ℕ
  unfolding total
  active_count m = total String-discrete active_weight m

  -- A session is on its way out, or its timer is armed.
  abbrev pub Attended : Session F W → Type 0
  Attended s = (s.closing || is_armed s.stale) ≡ true

  abbrev pub IsEntry : String × Session F W → Type 0
  IsEntry e = (e.1.id ≡ e.0) × Attended e.1

-- The counters count the map: pending and active sessions, and the sessions that `Wait` waits
-- for. The total counts the active sessions and those of the history, but for `base` of them.
pub record Counted {F W : Type 0} (base : ℕ) (m : List (String × Session F W)) (h : History)
    (pending_counter active_counter total_counter waiting : ℕ) : Type 0 where
  pub distinct : IsMap String-discrete m
  pub entries : All IsEntry m
  pub pending : pending_counter ≡ u64 (pending_count m)
  pub active : active_counter ≡ u64 (active_count m)
  pub waits : waiting ≡ pending_count m + active_count m
  pub distinct_history : IsMap String-discrete h
  pub totals : u64 (total_counter + base) ≡ u64 (history_count h + active_count m)

module _ {F W : Type 0} (base : ℕ) where
  abbrev pub IsCounted : Collector F W → Type 0
  IsCounted c =
      Counted base c.sessions c.history c.current_pending_sessions c.current_active_sessions
        c.total_sessions c.waiting

module _ {F W : Type 0} (id : String) (m : List (String × Session F W)) where
  pub counts-delete :
      (s : Session F W)
      → IsMap String-discrete m
      → lookup String-discrete id m ≡ some s
      → (pending_count m ≡ pending_weight s + pending_count (delete String-discrete id m))
        × (active_count m ≡ active_weight s + active_count (delete String-discrete id m))
  unfolding pending_count active_count
  counts-delete s u h = (
    total-delete String-discrete pending_weight id s m u h,
    total-delete String-discrete active_weight id s m u h,
  )

  pub counts-insert :
      (s : Session F W)
      → (pending_count (insert String-discrete id s m)
          ≡ pending_weight s + pending_count (delete String-discrete id m))
        × (active_count (insert String-discrete id s m)
            ≡ active_weight s + active_count (delete String-discrete id m))
  unfolding pending_count active_count
  counts-insert s = (
    total-insert String-discrete pending_weight id s m,
    total-insert String-discrete active_weight id s m,
  )

  -- A session is replaced.
  pub Counted-replace :
      {base p a t w : ℕ} {h : History} (s s' : Session F W)
      → lookup String-discrete id m ≡ some s
      → s'.id ≡ s.id
      → s'.active ≡ s.active
      → Attended s'
      → Counted base m h p a t w
      → Counted base (insert String-discrete id s' m) h p a t w
  Counted-replace s s' e same alike attended k =
      let entry = lookup_of_All String-discrete IsEntry m id s k.entries e in
      let (p₀, a₀) = counts-delete s k.distinct e in
      let (p₁, a₁) = counts-insert s' in
      let pending_same : pending_weight s' ≡ pending_weight s =
        ap (λ b. if b then 0 else 1) alike in
      let active_same : active_weight s' ≡ active_weight s = ap (λ b. if b then 1 else 0) alike in
      let pendings : pending_count (insert String-discrete id s' m) ≡ pending_count m =
        omega arith in
      let actives : active_count (insert String-discrete id s' m) ≡ active_count m = omega arith in
      record {
        distinct = insert-IsMap String-discrete id s' m k.distinct;
        entries = All-insert String-discrete IsEntry id s' m (same ∙ entry.0, attended) k.entries;
        pending = k.pending ∙ ap u64 (sym pendings);
        active = k.active ∙ ap u64 (sym actives);
        waits = k.waits ∙ ap₂ (λ x y. x + y) (sym pendings) (sym actives);
        distinct_history = k.distinct_history;
        totals = omega (arith, k.totals);
      }

  -- A session is added.
  pub Counted-add :
      {base p a t w : ℕ} {h : History} (s : Session F W)
      → lookup String-discrete id m ≡ none
      → s.id ≡ id
      → s.active ≡ false
      → Attended s
      → Counted base m h p a t w
      → Counted base (insert String-discrete id s m) h (add64 p 1) a t (suc w)
  unfolding add64
  Counted-add {p = p} s e same inactive attended k =
      let (p₁, a₁) = counts-insert s in
      let gone = delete_absent String-discrete id m e in
      let pending_one : pending_weight s ≡ 1 = ap (λ b. if b then 0 else 1) inactive in
      let active_none : active_weight s ≡ 0 = ap (λ b. if b then 1 else 0) inactive in
      let pendings : pending_count (insert String-discrete id s m) ≡ suc (pending_count m) =
        omega (arith, ap pending_count gone) in
      let actives : active_count (insert String-discrete id s m) ≡ active_count m =
        omega (arith, ap active_count gone) in
      record {
        distinct = insert-IsMap String-discrete id s m k.distinct;
        entries = All-insert String-discrete IsEntry id s m (same, attended) k.entries;
        pending = omega (arith, k.pending);
        active = k.active ∙ ap u64 (sym actives);
        waits = omega (arith, k.waits);
        distinct_history = k.distinct_history;
        totals = omega (arith, k.totals);
      }

  -- A session is activated.
  pub Counted-activate :
      {base p a t w : ℕ} {h : History} (s : Session F W)
      → lookup String-discrete id m ≡ some s
      → s.active ≡ false
      → Counted base m h p a t w
      → Counted base
          (insert String-discrete id (record s { active = true }) m)
          h
          (sub64 p 1)
          (add64 a 1)
          (add64 t 1)
          w
  unfolding add64 sub64
  Counted-activate {p = p} {a = a} {t = t} s e inactive k =
      let entry = lookup_of_All String-discrete IsEntry m id s k.entries e in
      let (p₀, a₀) = counts-delete s k.distinct e in
      let (p₁, a₁) = counts-insert (record s { active = true }) in
      let pending_one : pending_weight s ≡ 1 = ap (λ b. if b then 0 else 1) inactive in
      let active_none : active_weight s ≡ 0 = ap (λ b. if b then 1 else 0) inactive in
      record {
        distinct = insert-IsMap String-discrete id (record s { active = true }) m k.distinct;
        entries =
            All-insert String-discrete IsEntry id (record s { active = true }) m entry k.entries;
        pending = omega (arith, k.pending);
        active = omega (arith, k.active);
        waits = omega (arith, k.waits);
        distinct_history = k.distinct_history;
        totals = omega (arith, k.totals);
      }

  -- A session that is not active is dropped.
  pub Counted-drop :
      {base p a t w : ℕ} {h : History} (s : Session F W)
      → lookup String-discrete id m ≡ some s
      → s.active ≡ false
      → Counted base m h p a t w
      → Counted base (delete String-discrete id m) h (sub64 p 1) a t (w - 1)
  unfolding sub64
  Counted-drop {p = p} {w = w} s e inactive k =
      let (p₀, a₀) = counts-delete s k.distinct e in
      let pending_one : pending_weight s ≡ 1 = ap (λ b. if b then 0 else 1) inactive in
      let active_none : active_weight s ≡ 0 = ap (λ b. if b then 1 else 0) inactive in
      record {
        distinct = delete-IsMap String-discrete id m k.distinct;
        entries = All-delete String-discrete IsEntry id m k.entries;
        pending = omega (arith, k.pending);
        active = omega (arith, k.active);
        waits = omega (arith, k.waits);
        distinct_history = k.distinct_history;
        totals = omega (arith, k.totals);
      }

  -- An active session goes to the history.
  pub Counted-archive :
      {base p a t w : ℕ} {h h' : History} (s : Session F W)
      → lookup String-discrete id m ≡ some s
      → s.active ≡ true
      → IsMap String-discrete h'
      → u64 (history_count h') ≡ u64 (history_count h + 1)
      → Counted base m h p a t w
      → Counted base (delete String-discrete id m) h' p (sub64 a 1) t (w - 1)
  unfolding sub64
  Counted-archive {a = a} {w = w} s e is_active u count k =
      let (p₀, a₀) = counts-delete s k.distinct e in
      let pending_none : pending_weight s ≡ 0 = ap (λ b. if b then 0 else 1) is_active in
      let active_one : active_weight s ≡ 1 = ap (λ b. if b then 1 else 0) is_active in
      record {
        distinct = delete-IsMap String-discrete id m k.distinct;
        entries = All-delete String-discrete IsEntry id m k.entries;
        pending = omega (arith, k.pending);
        active = omega (arith, k.active);
        waits = omega (arith, k.waits);
        distinct_history = u;
        totals = omega (arith, k.totals);
      }
