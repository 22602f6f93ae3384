-- ===== src/Session/Totals.antt =====
-- What the close callback of session/collector.go adds to the history, in sum over all groups.
use datarhei_core.Prelude.{
  ℕ, ◌+◌, ◌≡◌, refl, ap, String, Option, none, some, List, String-discrete, arith,
}
use datarhei_core.Prelude.Map.{
  lookup, insert, IsMap, total, total-delete, total-insert, insert-IsMap, delete_absent,
}
use datarhei_core.Prelude.Words.{u64, add64}
use datarhei_core.Session.{Session}
use datarhei_core.Session.Collector.{Totals, History, history_key, add_totals, add_history}

unfoldable pub history_count : History → ℕ
unfolding total
history_count h = total String-discrete (λ t. t.total_sessions) h

unfoldable pub history_rx : History → ℕ
unfolding total
history_rx h = total String-discrete (λ t. t.total_rx_bytes) h

-- A value is replaced by one that measures `n` more, or a new one is added that measures `n`.
pub total-insert_more :
    {V : Type 0} (weight : V → ℕ) (n : ℕ) (f : Option V → V) (key : String) (m : List (String × V))
    → u64 (weight (f none)) ≡ u64 n
    → ((v : V) → u64 (weight (f (some v))) ≡ u64 (weight v + n))
    → IsMap String-discrete m
    → (u64 (
          total String-discrete weight
            (insert String-discrete key (f (lookup String-discrete key m)) m))
        ≡ u64 (total String-discrete weight m + n))
total-insert_more {V = V} weight n f key m fresh more u = go (lookup String-discrete key m) refl
  where
    go :
        (o : Option V)
        → lookup String-discrete key m ≡ o
        → (u64 (total String-discrete weight (insert String-discrete key (f o) m))
            ≡ u64 (total String-discrete weight m + n))
    go none e = omega (
      arith,
      total-insert String-discrete weight key (f none) m,
      ap (total String-discrete weight) (delete_absent String-discrete key m e),
    )
    go (some v) e = omega (
      arith,
      more v,
      total-insert String-discrete weight key (f (some v)) m,
      total-delete String-discrete weight key v m u e,
    )

module _ {F W : Type 0} (s : Session F W) (h : History) where
  pub add_history-IsMap : IsMap String-discrete h → IsMap String-discrete (add_history s h)
  unfolding add_history
  add_history-IsMap u =
      let key = history_key s.location s.peer s.reference in
      insert-IsMap String-discrete key (add_totals s (lookup String-discrete key h)) h u

  -- A measure of totals that the session adds `n` to, new totals or old.
  total-add_history :
      (weight : Totals → ℕ) (n : ℕ)
      → u64 (weight (add_totals s none)) ≡ u64 n
      → ((t : Totals) → u64 (weight (add_totals s (some t))) ≡ u64 (weight t + n))
      → IsMap String-discrete h
      → (u64 (total String-discrete weight (add_history s h))
          ≡ u64 (total String-discrete weight h + n))
  unfolding add_history
  total-add_history weight n fresh more u =
      let key = history_key s.location s.peer s.reference in
      total-insert_more weight n (add_totals s) key h fresh more u

  pub history_count-add_history :
      IsMap String-discrete h → u64 (history_count (add_history s h)) ≡ u64 (history_count h + 1)
  unfolding history_count add_totals add64
  history_count-add_history u =
      total-add_history (λ t. t.total_sessions) 1 (omega arith) (λ t. omega arith) u

  pub history_rx-add_history :
      IsMap String-discrete h → u64 (history_rx (add_history s h)) ≡ u64 (history_rx h + s.rx_bytes)
  unfolding history_rx add_totals add64
  history_rx-add_history u =
      total-add_history (λ t. t.total_rx_bytes) s.rx_bytes (omega arith) (λ t. omega arith) u
