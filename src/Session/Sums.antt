-- ===== src/Session/Sums.antt =====
-- The sums of `Summary` in session/collector.go: by peers, by locations, by references, and in all.
use datarhei_core.Prelude.{
  ℕ, ◌+◌, ◌≡◌, refl, sym, ap, subst, ◌∙◌, String, Bool, false, List, [], ◌∷◌, String-discrete,
  arith,
}
use datarhei_core.Prelude.Map.{lookup, IsMap, total, insert-IsMap}
use datarhei_core.Prelude.Words.{u64, add64}
use datarhei_core.Session.{Rates}
use datarhei_core.Session.Collector.{Totals, History, CollectorConfig}
use datarhei_core.Session.Events.{Event, stop}
use datarhei_core.Session.Totals.{history_count, total-insert_more}
use datarhei_core.Session.Runs.{reached, stop-run}
use datarhei_core.Session.Summary.{
  Stats, zero_stats, add_stats, Peers, zero_peers, get_or, add_at, add_peer, add_at_peer, Sums,
  zero_sums, add_sums, sum_history, summary,
}

-- A number in the totals and its sum in the statistics.
pub record Measure : Type 0 where
  pub of_totals : Totals → ℕ
  pub of_stats : Stats → ℕ
  pub of_zero : of_stats zero_stats ≡ 0
  pub adds :
      (v : Totals) (s : Stats) → u64 (of_stats (add_stats v s)) ≡ u64 (of_stats s + of_totals v)

unfoldable pub sessions_measure : Measure
unfolding zero_stats add_stats add64
sessions_measure = record {
  of_totals = λ t. t.total_sessions;
  of_stats = λ s. s.total_sessions;
  of_zero = refl;
  adds = λ v s. omega arith;
}

unfoldable pub rx_measure : Measure
unfolding zero_stats add_stats add64
rx_measure = record {
  of_totals = λ t. t.total_rx_bytes;
  of_stats = λ s. s.total_rx_bytes;
  of_zero = refl;
  adds = λ v s. omega arith;
}

unfoldable pub tx_measure : Measure
unfolding zero_stats add_stats add64
tx_measure = record {
  of_totals = λ t. t.total_tx_bytes;
  of_stats = λ s. s.total_tx_bytes;
  of_zero = refl;
  adds = λ v s. omega arith;
}

module _ (M : Measure) where
  abbrev stats_total : List (String × Stats) → ℕ
  stats_total m = total String-discrete M.of_stats m

  abbrev peers_total : List (String × Peers) → ℕ
  peers_total m = total String-discrete (λ (p : Peers). M.of_stats p.stats) m

  abbrev history_total : History → ℕ
  history_total h = total String-discrete M.of_totals h

  stats_total-add_at :
      (key : String) (v : Totals) (m : List (String × Stats))
      → IsMap String-discrete m
      → u64 (stats_total (add_at key v m)) ≡ u64 (stats_total m + M.of_totals v)
  unfolding add_at get_or
  stats_total-add_at key v m u =
      total-insert_more M.of_stats (M.of_totals v) (λ o. add_stats v (get_or zero_stats o)) key m
        (omega (arith, M.adds v zero_stats, M.of_zero)) (λ s. M.adds v s) u

  peers_total-add_at_peer :
      (v : Totals) (m : List (String × Peers))
      → IsMap String-discrete m
      → u64 (peers_total (add_at_peer v m)) ≡ u64 (peers_total m + M.of_totals v)
  unfolding add_at_peer get_or add_peer zero_peers
  peers_total-add_at_peer v m u =
      total-insert_more (λ (p : Peers). M.of_stats p.stats) (M.of_totals v)
        (λ o. add_peer v (get_or zero_peers o)) v.peer m
        (omega (arith, M.adds v zero_stats, M.of_zero)) (λ p. M.adds v p.stats) u

-- The maps of the sums have no key twice.
record IsSums (s : Sums) : Type 0 where
  distinct_peers : IsMap String-discrete s.peers
  distinct_locations : IsMap String-discrete s.locations
  distinct_references : IsMap String-discrete s.references

add_at-IsMap :
    (key : String) (v : Totals) (m : List (String × Stats))
    → IsMap String-discrete m
    → IsMap String-discrete (add_at key v m)
unfolding add_at
add_at-IsMap key v m u =
    insert-IsMap String-discrete key
      (add_stats v (get_or zero_stats (lookup String-discrete key m))) m u

add_at_peer-IsMap :
    (v : Totals) (m : List (String × Peers))
    → IsMap String-discrete m
    → IsMap String-discrete (add_at_peer v m)
unfolding add_at_peer
add_at_peer-IsMap v m u =
    insert-IsMap String-discrete v.peer
      (add_peer v (get_or zero_peers (lookup String-discrete v.peer m))) m u

add_sums-IsSums : (v : Totals) (s : Sums) → IsSums s → IsSums (add_sums v s)
unfolding add_sums
add_sums-IsSums v s d = record {
  distinct_peers = add_at_peer-IsMap v s.peers d.distinct_peers;
  distinct_locations = add_at-IsMap v.location v s.locations d.distinct_locations;
  distinct_references = add_at-IsMap v.reference v s.references d.distinct_references;
}

-- Each of the four sums of a measure is `n`, modulo 2 ^ 64.
pub record Balanced (M : Measure) (s : Sums) (n : ℕ) : Type 0 where
  pub by_peer : u64 (peers_total M s.peers) ≡ u64 n
  pub by_location : u64 (stats_total M s.locations) ≡ u64 n
  pub by_reference : u64 (stats_total M s.references) ≡ u64 n
  pub in_all : u64 (M.of_stats s.stats) ≡ u64 n

add_sums-Balanced :
    (M : Measure) (v : Totals) (s : Sums) (n : ℕ)
    → IsSums s
    → Balanced M s n
    → Balanced M (add_sums v s) (n + M.of_totals v)
unfolding add_sums
add_sums-Balanced M v s n d b = record {
  by_peer = omega (arith, peers_total-add_at_peer M v s.peers d.distinct_peers, b.by_peer);
  by_location =
      omega
        (arith, stats_total-add_at M v.location v s.locations d.distinct_locations, b.by_location);
  by_reference = omega (
    arith,
    stats_total-add_at M v.reference v s.references d.distinct_references,
    b.by_reference,
  );
  in_all = omega (arith, M.adds v s.stats, b.in_all);
}

sum_history_from :
    (M : Measure) (h : History) (s : Sums) (n : ℕ)
    → IsSums s
    → Balanced M s n
    → Balanced M (sum_history s h) (n + history_total M h)
unfolding sum_history total
sum_history_from M [] s n d b = record {
  by_peer = omega (arith, b.by_peer);
  by_location = omega (arith, b.by_location);
  by_reference = omega (arith, b.by_reference);
  in_all = omega (arith, b.in_all);
}
sum_history_from M ((key, v) ∷ h) s n d b =
    let rest =
      sum_history_from M h (add_sums v s) (n + M.of_totals v) (add_sums-IsSums v s d)
        (add_sums-Balanced M v s n d b) in
    record {
      by_peer = omega (arith, rest.by_peer);
      by_location = omega (arith, rest.by_location);
      by_reference = omega (arith, rest.by_reference);
      in_all = omega (arith, rest.in_all);
    }

zero_sums-Balanced : (M : Measure) → Balanced M zero_sums 0
unfolding zero_sums total
zero_sums-Balanced M = record {
  by_peer = refl;
  by_location = refl;
  by_reference = refl;
  in_all = ap u64 M.of_zero;
}

zero_sums-IsSums : IsSums zero_sums
unfolding zero_sums
zero_sums-IsSums = record { distinct_peers = tt; distinct_locations = tt; distinct_references = tt }

-- For every history and each measure that `Stats` sums up (sessions, received bytes, sent bytes),
-- the sums of `Summary` over the peers, over the locations, over the references, and in all are
-- the sum over the history modulo 2^64.
pub sum_history-Balanced :
    (M : Measure) (h : History) → Balanced M (sum_history zero_sums h) (history_total M h)
sum_history-Balanced M h =
    let b = sum_history_from M h zero_sums 0 zero_sums-IsSums (zero_sums-Balanced M) in
    let zero_add : 0 + history_total M h ≡ history_total M h = omega arith in
    subst (Balanced M (sum_history zero_sums h)) zero_add b

-- After any sequence of events on a new collector whose loaded history has no key twice, and
-- `Stop` of a collector that is not stopped, the total of sessions in `Summary` is the number of
-- activated sessions and those of the loaded history modulo 2^64.
pub summary-stop :
    {F W : Type 0} (rates : Rates F W) (now later : ℕ) (config : CollectorConfig F)
    (persisted : Bool) (loaded : History) (es : List (ℕ × Event F)) (ok : Bool)
    → IsMap String-discrete loaded
    → (reached rates now config persisted loaded es).stopped ≡ false
    → (u64
          (summary rates later
            (stop ok (reached rates now config persisted loaded es))).summary.stats.total_sessions
        ≡ u64 (
            (stop ok (reached rates now config persisted loaded es)).total_sessions
            + history_count loaded))
unfolding summary history_count sessions_measure
summary-stop rates now later config persisted loaded es ok u e =
    let drained = stop-run rates now config persisted loaded es ok u e in
    let c = stop ok (reached rates now config persisted loaded es) in
    (sum_history-Balanced sessions_measure c.history).in_all ∙ sym drained.archived
