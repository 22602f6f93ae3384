-- ===== src/Session.antt =====
-- session/session.go: one session, its traffic and its timers. The sliding windows are those of
-- github.com/prep/average. Operations are atomic; a duration is a number of nanoseconds. The
-- ticker's goroutine, the close callback and the timers run as steps of `Session.Events`.
pub mod Collector
pub mod Events
pub mod Totals
pub mod Summary
pub mod Counts
pub mod Invariant
pub mod Stop
pub mod Runs
pub mod Sums
pub mod Idle
pub mod Names
pub mod Registry
mod Tests
pub mod Reuse
use datarhei_core.Prelude.{
  ℕ, ◌+◌, ◌≡◌, String, Bool, true, false, Option, none, some, List, [], ◌∷◌, ltb, leb,
  if◌then◌else◌, ◌*◌, String-discrete, ite,
}
use datarhei_core.Prelude.Int.{ℤ, pos, negsuc, pos_part, neg_part}
use datarhei_core.Prelude.Words.{u64, add64, sub64}

-- Bitrates `F` and windows `W`: 0.0, `>`, `+`, the factor of the ticker, a new window, `Add` and
-- `Average` at a time.
pub record Rates (F W : Type 0) : Type 0 where
  pub zero_rate : F
  pub above : F → F → Bool
  pub plus : F → F → F
  pub decay : F → F
  pub new_window : ℕ → W
  pub add : ℕ → ℤ → W → W
  pub average : ℕ → W → F

-- `session`. `stale` is when the timer of the object will fire, if it is armed; `strays` are
-- timers of earlier lives of the object that are still armed. `closing`: `sessionClose` is done
-- and the callback has not run.
pub record Session (F W : Type 0) : Type 0 where
  pub id : String
  pub reference : String
  pub created_at : ℕ
  pub active : Bool
  pub location : String
  pub peer : String
  pub extra : String
  pub stale : Option ℕ
  pub strays : List ℕ
  pub timeout : ℕ
  pub closing : Bool
  pub rx_window : W
  pub rx_bytes : ℕ
  pub tx_window : W
  pub tx_bytes : ℕ
  pub top_rx_bitrate : F
  pub top_tx_bitrate : F
  pub max_rx_bitrate : F
  pub max_tx_bitrate : F

-- `uint64(size)` of an `int64`
unfoldable pub to_u64 : ℤ → ℕ
unfolding sub64
to_u64 size = sub64 (pos_part size) (neg_part size)

-- `size * 8`, away from overflow.
abbrev pub bits : ℤ → ℤ
bits (pos n) = pos (8 * n)
bits (negsuc n) = negsuc (8 * n + 7)

abbrev pub is_zero : ℤ → Bool
is_zero size = if ltb 0 (pos_part size + neg_part size) then false else true

abbrev pub lesser : ℕ → ℕ → ℕ
lesser a b = if ltb b a then b else a

abbrev pub or_unknown : String → String
or_unknown s = ite (String-discrete s "") "unknown" s

-- The timers of an object that is initialised again stay armed.
unfoldable pub kept_timers : Option ℕ → List ℕ → List ℕ
kept_timers none ts = ts
kept_timers (some t) ts = t ∷ ts

module _ {F W : Type 0} (rates : Rates F W) where
  -- `&session{}`; its windows are nil until `Init`.
  unfoldable pub blank_session : Session F W
  blank_session = record {
    id = "";
    reference = "";
    created_at = 0;
    active = false;
    location = "";
    peer = "";
    extra = "";
    stale = none;
    strays = [];
    timeout = 0;
    closing = false;
    rx_window = rates.new_window 0;
    rx_bytes = 0;
    tx_window = rates.new_window 0;
    tx_bytes = 0;
    top_rx_bitrate = rates.zero_rate;
    top_tx_bitrate = rates.zero_rate;
    max_rx_bitrate = rates.zero_rate;
    max_tx_bitrate = rates.zero_rate;
  }

  -- `Init`
  unfoldable pub init : String → String → ℕ → ℕ → ℕ → Session F W → Session F W
  unfolding kept_timers
  init id reference inactive timeout now s = record s {
    id = id;
    reference = reference;
    created_at = now;
    active = false;
    location = "";
    peer = "";
    stale = some (now + lesser inactive timeout);
    strays = kept_timers s.stale s.strays;
    timeout = timeout;
    closing = false;
    rx_window = rates.new_window now;
    tx_window = rates.new_window now;
    top_rx_bitrate = rates.zero_rate;
    top_tx_bitrate = rates.zero_rate;
    max_rx_bitrate = rates.zero_rate;
    max_tx_bitrate = rates.zero_rate;
  }

  -- `Ingress`, of a size that is not 0.
  unfoldable pub receive : ℤ → ℕ → Session F W → Session F W
  unfolding add64
  receive size now s =
      let window = rates.add now (bits size) s.rx_window in
      let bitrate = rates.average now window in
      record s {
        stale = some (now + s.timeout);
        rx_window = window;
        rx_bytes = add64 s.rx_bytes (to_u64 size);
        top_rx_bitrate = if rates.above bitrate s.top_rx_bitrate then bitrate else s.top_rx_bitrate;
        max_rx_bitrate = if rates.above bitrate s.max_rx_bitrate then bitrate else s.max_rx_bitrate;
      }

  -- `Egress`, of a size that is not 0.
  unfoldable pub send : ℤ → ℕ → Session F W → Session F W
  unfolding add64
  send size now s =
      let window = rates.add now (bits size) s.tx_window in
      let bitrate = rates.average now window in
      record s {
        stale = some (now + s.timeout);
        tx_window = window;
        tx_bytes = add64 s.tx_bytes (to_u64 size);
        top_tx_bitrate = if rates.above bitrate s.top_tx_bitrate then bitrate else s.top_tx_bitrate;
        max_tx_bitrate = if rates.above bitrate s.max_tx_bitrate then bitrate else s.max_tx_bitrate;
      }

  -- A second of `ticker`.
  unfoldable pub tick : Session F W → Session F W
  tick s = record s {
    top_rx_bitrate = rates.decay s.top_rx_bitrate;
    top_tx_bitrate = rates.decay s.top_tx_bitrate;
  }

module _ {F W : Type 0} where
  -- `close`: the first call stops the timer and starts the callback.
  unfoldable pub close : Session F W → Session F W
  close s = if s.closing then s else record s { stale = none; closing = true }

  -- `Register`
  unfoldable pub register_session : String → String → Session F W → Session F W
  register_session location peer s = record s {
    location = or_unknown location;
    peer = or_unknown peer;
  }

  -- `Activate`
  unfoldable pub activate_session : Session F W → Session F W × Bool
  activate_session s = if s.active then (s, false) else (record s { active = true }, true)

  -- `Extra`
  unfoldable pub set_extra : String → Session F W → Session F W
  set_extra extra s = record s { extra = extra }

  -- `SetTopRxBitrate` and `SetTopTxBitrate`
  unfoldable pub set_top_rx_bitrate : F → Session F W → Session F W
  set_top_rx_bitrate bitrate s = record s { top_rx_bitrate = bitrate }

  unfoldable pub set_top_tx_bitrate : F → Session F W → Session F W
  set_top_tx_bitrate bitrate s = record s { top_tx_bitrate = bitrate }

  -- The timer of the object fires: the function of `AfterFunc`.
  unfoldable pub fire_stale : ℕ → Session F W → Session F W
  unfolding close
  fire_stale now s = elim s.stale [
    | none ↦ s
    | some t ↦ if leb t now then close (record s { stale = none }) else s
  ]

  -- A timer that an earlier life of the object has left fires.
  unfoldable pub fire_stray : ℕ → Session F W → Session F W
  unfolding close
  fire_stray now s = elim s.strays [
    | [] ↦ s
    | t ∷ ts ↦ if leb t now then close (record s { strays = ts }) else s
  ]
