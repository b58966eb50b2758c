-- ===== src/StreamWatchdog/Stall.antt =====
-- When the detector of castd/stream_watchdog.py trips.
use miracast_device.Base.{
  ℕ, ◌+◌, ◌≤◌, ◌≡◌, ◌∙◌, Bool, true, false, some, leb, ltb, ◌&&◌, ◌||◌, List, [], ◌∷◌, arith,
  Bool-cases, inl, inr,
}
use miracast_device.StreamWatchdog.{StreamWatchdog, reset, observe}

-- The byte count and the time of a sample.
abbrev pub Sample : Type 0
Sample = ℕ × ℕ

-- The verdict on the last of the samples.
unfoldable pub verdict : StreamWatchdog → Sample → List Sample → Bool
unfolding observe
verdict w (rx, t) [] = (observe w rx t).1
verdict w (rx, t) (s ∷ ss) = verdict (observe w rx t).0 s ss

abbrev pub last_time : ℕ → List Sample → ℕ
last_time t [] = t
last_time t ((_, t') ∷ ss) = last_time t' ss

abbrev pub AreInOrder : ℕ → List Sample → Type 0
AreInOrder t [] = Unit {0}
AreInOrder t ((_, t') ∷ ss) = (t ≤ t') × AreInOrder t' ss

-- Each sample has less than `min_bytes` more than the sample before it, or is older than the
-- window at the time `now`.
unfoldable pub is_quiet : StreamWatchdog → ℕ → ℕ → List Sample → Bool
is_quiet w now last [] = true
is_quiet w now last ((rx, t) ∷ ss) =
    (ltb rx (last + w.min_bytes) || ltb (t + w.stall_window) now) && is_quiet w now rx ss

progress_seen :
    (p t w now last m rx : ℕ) (q : Bool)
    → p ≤ t
    → leb (last + m) rx ≡ true
    → (ltb (t + w) now && q) ≡ (ltb (p + w) now && ((ltb rx (last + m) || ltb (t + w) now) && q))
progress_seen p t w now last m rx q h k = ground arith

no_progress :
    (p t w now last m rx : ℕ) (q : Bool)
    → leb (last + m) rx ≡ false
    → (ltb (p + w) now && q) ≡ (ltb (p + w) now && ((ltb rx (last + m) || ltb (t + w) now) && q))
no_progress p t w now last m rx q k = ground arith

and_true : (b : Bool) → b ≡ (b && true)
and_true b = ground arith

verdict_after :
    (w : StreamWatchdog) (last p rx t : ℕ) (ss : List Sample)
    → p ≤ t
    → AreInOrder t ss
    → verdict (record w { last_rx = some last; last_progress = some p }) (rx, t) ss ≡ (
        ltb (p + w.stall_window) (last_time t ss)
        && is_quiet w (last_time t ss) last ((rx, t) ∷ ss))
unfolding verdict is_quiet
verdict_after w last p rx t [] h o = elim (Bool-cases (leb (last + w.min_bytes) rx)) [
  | inl grew ↦
      rw grew (and_true _ ∙ progress_seen p t w.stall_window t last w.min_bytes rx true h grew)
  | inr flat ↦ rw flat (and_true _ ∙ no_progress p t w.stall_window t last w.min_bytes rx true flat)
]
verdict_after w last p rx t ((rx', t') ∷ ss) h o = elim (Bool-cases (leb (last + w.min_bytes) rx)) [
  | inl grew ↦
      rw (grew, verdict_after w rx t rx' t' ss o.0 o.1)
        (progress_seen p t w.stall_window _ last w.min_bytes rx _ h grew)
  | inr flat ↦
      rw (flat, verdict_after w rx p rx' t' ss (omega arith) o.1)
        (no_progress p t w.stall_window _ last w.min_bytes rx _ flat)
]

-- From a reset detector and a first sample, with the later samples in the order of time, the
-- verdict on the last one is a stall exactly when the first sample is older than the window and no
-- sample within the window brought `min_bytes` more than the one before it.
pub verdict_iff_stalled :
    (w : StreamWatchdog) (rx₀ t₀ rx t : ℕ) (ss : List Sample)
    → AreInOrder t₀ ((rx, t) ∷ ss)
    → verdict (reset w) (rx₀, t₀) ((rx, t) ∷ ss) ≡ (
        ltb (t₀ + w.stall_window) (last_time t ss)
        && is_quiet w (last_time t ss) rx₀ ((rx, t) ∷ ss))
unfolding verdict reset
verdict_iff_stalled w rx₀ t₀ rx t ss o = verdict_after w rx₀ t₀ rx t ss o.0 o.1
