-- ===== src/StreamWatchdog.antt =====
-- castd/stream_watchdog.py: the stall detector. Times and the window are in the same unit of time,
-- byte counts are natural numbers.
pub mod Stall
use miracast_device.Base.{
  ℕ, ◌+◌, Bool, true, false, Option, none, some, leb, ltb, if◌then◌else◌, List, [], ◌∷◌,
}

pub record StreamWatchdog : Type 0 where
  pub stall_window : ℕ
  pub min_bytes : ℕ
  pub last_rx : Option ℕ
  pub last_progress : Option ℕ

unfoldable pub new : ℕ → ℕ → StreamWatchdog
new stall_window min_bytes = record {
  stall_window = stall_window;
  min_bytes = min_bytes;
  last_rx = none;
  last_progress = none;
}

unfoldable pub reset : StreamWatchdog → StreamWatchdog
reset w = record w { last_rx = none; last_progress = none }

-- `(now - last_progress) > stall_window`, without subtraction; both fields are set together.
abbrev stalled : ℕ → Option ℕ → ℕ → Bool
stalled window none now = false
stalled window (some t) now = ltb (t + window) now

-- `observe` after the first sample; `rx_bytes - last_rx >= min_bytes` without subtraction.
abbrev observe_next : ℕ → StreamWatchdog → ℕ → ℕ → StreamWatchdog × Bool
observe_next last w rx_bytes now =
    let progress = if leb (last + w.min_bytes) rx_bytes then some now else w.last_progress in
    (
      record w { last_rx = some rx_bytes; last_progress = progress },
      stalled w.stall_window progress now,
    )

unfoldable pub observe : StreamWatchdog → ℕ → ℕ → StreamWatchdog × Bool
observe w rx_bytes now = elim w.last_rx [
  | none ↦ (record w { last_rx = some rx_bytes; last_progress = some now }, false)
  | some last ↦ observe_next last w rx_bytes now
]
