-- ===== src/Session/Summary.antt =====
-- `Summary` and `Active` of session/collector.go.
use datarhei_core.Prelude.{
  ℕ, String, Bool, false, Option, none, some, List, [], ◌∷◌, ltb, if◌then◌else◌, String-discrete,
}
use datarhei_core.Prelude.Map.{lookup, insert}
use datarhei_core.Prelude.Words.{add64}
use datarhei_core.Session.{Rates, Session}
use datarhei_core.Session.Collector.{Companion, Totals, History, Collector}

-- `Stats`
pub record Stats : Type 0 where
  pub total_sessions : ℕ
  pub total_rx_bytes : ℕ
  pub total_tx_bytes : ℕ

unfoldable pub zero_stats : Stats
zero_stats = record { total_sessions = 0; total_rx_bytes = 0; total_tx_bytes = 0 }

unfoldable pub add_stats : Totals → Stats → Stats
unfolding add64
add_stats v s = record {
  total_sessions = add64 s.total_sessions v.total_sessions;
  total_rx_bytes = add64 s.total_rx_bytes v.total_rx_bytes;
  total_tx_bytes = add64 s.total_tx_bytes v.total_tx_bytes;
}

-- `Peers`
pub record Peers : Type 0 where
  pub stats : Stats
  pub locations : List (String × Stats)

unfoldable pub zero_peers : Peers
unfolding zero_stats
zero_peers = record { stats = zero_stats; locations = [] }

-- A missing key reads as the zero value.
unfoldable pub get_or : {A : Type 0} → A → Option A → A
get_or a none = a
get_or a (some b) = b

unfoldable pub add_at : String → Totals → List (String × Stats) → List (String × Stats)
unfolding insert lookup get_or add_stats zero_stats
add_at key v m =
    insert String-discrete key (add_stats v (get_or zero_stats (lookup String-discrete key m))) m

unfoldable pub add_peer : Totals → Peers → Peers
unfolding add_at add_stats
add_peer v p = record { stats = add_stats v p.stats; locations = add_at v.location v p.locations }

unfoldable pub add_at_peer : Totals → List (String × Peers) → List (String × Peers)
unfolding insert lookup get_or add_peer zero_peers
add_at_peer v m =
    insert String-discrete v.peer (add_peer v (get_or zero_peers (lookup String-discrete v.peer m)))
      m

-- The field `Summary` of a `Summary`.
pub record Sums : Type 0 where
  pub peers : List (String × Peers)
  pub locations : List (String × Stats)
  pub references : List (String × Stats)
  pub stats : Stats

unfoldable pub zero_sums : Sums
unfolding zero_stats
zero_sums = record { peers = []; locations = []; references = []; stats = zero_stats }

-- A round of the loop over the history.
unfoldable pub add_sums : Totals → Sums → Sums
unfolding add_at_peer add_at add_stats
add_sums v s = record {
  peers = add_at_peer v s.peers;
  locations = add_at v.location v s.locations;
  references = add_at v.reference v s.references;
  stats = add_stats v s.stats;
}

unfoldable pub sum_history : Sums → History → Sums
unfolding add_sums
sum_history s [] = s
sum_history s ((key, v) ∷ h) = sum_history (add_sums v s) h

-- `Session`, as it is reported.
pub record Info (F : Type 0) : Type 0 where
  pub id : String
  pub reference : String
  pub created_at : ℕ
  pub location : String
  pub peer : String
  pub extra : String
  pub rx_bytes : ℕ
  pub rx_bitrate : F
  pub top_rx_bitrate : F
  pub tx_bytes : ℕ
  pub tx_bitrate : F
  pub top_tx_bitrate : F

-- `sort.Slice` by the time of creation.
unfoldable pub insert_info : {F : Type 0} → Info F → List (Info F) → List (Info F)
insert_info i [] = i ∷ []
insert_info i (j ∷ is) =
    let rest = insert_info i is in if ltb j.created_at i.created_at then j ∷ rest else i ∷ j ∷ is

-- `Summary`
pub record Summary (F : Type 0) : Type 0 where
  pub max_sessions : ℕ
  pub max_rx_bitrate : Option F
  pub max_tx_bitrate : Option F
  pub current_sessions : ℕ
  pub current_rx_bitrate : F
  pub current_tx_bitrate : F
  pub active : List (Info F)
  pub summary : Sums

module _ {F W : Type 0} (rates : Rates F W) where
  unfoldable pub info : ℕ → Session F W → Info F
  info now s = record {
    id = s.id;
    reference = s.reference;
    created_at = s.created_at;
    location = s.location;
    peer = s.peer;
    extra = s.extra;
    rx_bytes = s.rx_bytes;
    rx_bitrate = rates.average now s.rx_window;
    top_rx_bitrate = s.top_rx_bitrate;
    tx_bytes = s.tx_bytes;
    tx_bitrate = rates.average now s.tx_window;
    top_tx_bitrate = s.top_tx_bitrate;
  }

  -- `Active`, of the entries of the map.
  unfoldable pub active_infos : ℕ → List (String × Session F W) → List (Info F)
  unfolding info insert_info
  active_infos now [] = []
  active_infos now ((id, s) ∷ m) =
      let rest = active_infos now m in if s.active then insert_info (info now s) rest else rest

  -- `Summary`
  unfoldable pub summary : ℕ → Collector F W → Summary F
  unfolding active_infos sum_history zero_sums
  summary now c = record {
    max_sessions = c.max_sessions;
    max_rx_bitrate = c.max_rx_bitrate;
    max_tx_bitrate = c.max_tx_bitrate;
    current_sessions = c.current_active_sessions;
    current_rx_bitrate = rates.average now c.rx_window;
    current_tx_bitrate = rates.average now c.tx_window;
    active = active_infos now c.sessions;
    summary = sum_history zero_sums c.history;
  }

  -- `TopIngressBitrate` and `TopEgressBitrate`, of the entries of the map.
  unfoldable pub top_ingress_bitrate : F → List (String × Session F W) → F
  top_ingress_bitrate sum [] = sum
  top_ingress_bitrate sum ((id, s) ∷ m) =
      top_ingress_bitrate (if s.active then rates.plus sum s.top_rx_bitrate else sum) m

  unfoldable pub top_egress_bitrate : F → List (String × Session F W) → F
  top_egress_bitrate sum [] = sum
  top_egress_bitrate sum ((id, s) ∷ m) =
      top_egress_bitrate (if s.active then rates.plus sum s.top_tx_bitrate else sum) m

  -- `SessionTopIngressBitrate` and `SessionTopEgressBitrate`
  unfoldable pub session_top_ingress_bitrate : String → Collector F W → F
  unfolding lookup
  session_top_ingress_bitrate id c = elim (lookup String-discrete id c.sessions) [
    | none ↦ rates.zero_rate
    | some s ↦ s.top_rx_bitrate
  ]

  unfoldable pub session_top_egress_bitrate : String → Collector F W → F
  unfolding lookup
  session_top_egress_bitrate id c = elim (lookup String-discrete id c.sessions) [
    | none ↦ rates.zero_rate
    | some s ↦ s.top_tx_bitrate
  ]

  -- `IngressBitrate` and `EgressBitrate`, and whether a limit that is set is exceeded.
  unfoldable pub ingress_bitrate : ℕ → Collector F W → F
  ingress_bitrate now c = rates.average now c.rx_window

  unfoldable pub egress_bitrate : ℕ → Collector F W → F
  egress_bitrate now c = rates.average now c.tx_window

  unfoldable pub is_ingress_bitrate_exceeded : ℕ → Collector F W → Bool
  unfolding ingress_bitrate
  is_ingress_bitrate_exceeded now c = elim c.max_rx_bitrate [
    | none ↦ false
    | some max ↦ rates.above (ingress_bitrate now c) max
  ]

  unfoldable pub is_egress_bitrate_exceeded : ℕ → Collector F W → Bool
  unfolding egress_bitrate
  is_egress_bitrate_exceeded now c = elim c.max_tx_bitrate [
    | none ↦ false
    | some max ↦ rates.above (egress_bitrate now c) max
  ]

  -- The sums over the collector and its companions: `CompanionIngressBitrate` and its like.
  unfoldable pub companion_sum : (Companion F → F) → F → List (Companion F) → F
  companion_sum rate sum [] = sum
  companion_sum rate sum (co ∷ cos) = companion_sum rate (rates.plus sum (rate co)) cos

  unfoldable pub companion_ingress_bitrate : ℕ → Collector F W → F
  unfolding companion_sum ingress_bitrate
  companion_ingress_bitrate now c =
      companion_sum (λ co. co.ingress_rate now) (ingress_bitrate now c) c.companions

  unfoldable pub companion_egress_bitrate : ℕ → Collector F W → F
  unfolding companion_sum egress_bitrate
  companion_egress_bitrate now c =
      companion_sum (λ co. co.egress_rate now) (egress_bitrate now c) c.companions

  unfoldable pub companion_top_ingress_bitrate : ℕ → Collector F W → F
  unfolding companion_sum top_ingress_bitrate
  companion_top_ingress_bitrate now c =
      companion_sum (λ co. co.top_ingress_rate now) (top_ingress_bitrate rates.zero_rate c.sessions)
        c.companions

  unfoldable pub companion_top_egress_bitrate : ℕ → Collector F W → F
  unfolding companion_sum top_egress_bitrate
  companion_top_egress_bitrate now c =
      companion_sum (λ co. co.top_egress_rate now) (top_egress_bitrate rates.zero_rate c.sessions)
        c.companions
