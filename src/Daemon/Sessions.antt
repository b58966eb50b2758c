-- ===== src/Daemon/Sessions.antt =====
-- A Miracast session of castd/main.py from the connection to its end.
use miracast_device.Base.{
  ℕ, ◌≡◌, ◌≢◌, ◌<◌, refl, Bool, true, false, none, some, Text, Result, ok, err, arith,
}
use miracast_device.Arbiter.{idle, miracast, airplay, miracast_connected, handle}
use miracast_device.Process.{absent, alive}
use miracast_device.Rtsp
use miracast_device.Rtsp.{Negotiator, Raised, value_error, WfdCapabilities}
use miracast_device.Session
use miracast_device.Session.{Channel, Ended, out_of_fuel}
use miracast_device.Session.Steady.{left_over, run_steady_state_ends}
use miracast_device.Daemon.{
  Daemon, begin_session, after_handshake, handle_miracast_connected, after_steady_state,
  run_source_session, ◌>>=◌, pump_if,
}
use miracast_device.Daemon.Consistent.{IsConsistent, bind-ok, deliver-IsConsistent}

-- The room while a session streams.
pub record IsStreaming (d : Daemon) : Type 0 where
  pub consistent : IsConsistent d
  pub held : d.arbiter ≡ miracast
  pub rendering : d.render.child ≡ alive
  pub expected : d.render_pipeline_expected ≡ true

-- The room when nobody is presenting.
pub record IsFree (d : Daemon) : Type 0 where
  pub consistent : IsConsistent d
  pub unheld : d.arbiter ≡ idle
  pub not_rendering : d.render.child ≡ absent
  pub no_pin : d.painted ≡ none

pub session_starts :
    (n : Negotiator) (d : Daemon)
    → IsConsistent d
    → d.arbiter ≡ idle
    → ((handle_miracast_connected (ok n) d).0 ≡ ok (some n))
      × IsStreaming (handle_miracast_connected (ok n) d).1
unfolding handle_miracast_connected
session_starts n d h i = ground arith

pub begins :
    (d : Daemon)
    → IsConsistent d
    → d.arbiter ≢ airplay
    → ((begin_session d).0 ≡ ok tt)
      × IsConsistent (begin_session d).1
      × ((begin_session d).1.arbiter ≡ miracast)
unfolding begin_session handle
begins d h i =
    let (fine, consistent, at) = deliver-IsConsistent miracast_connected d h in
    (fine, consistent, ground (arith, at))

released :
    (e : Raised) (d : Daemon)
    → IsConsistent d
    → d.arbiter ≡ miracast
    → e ≢ value_error
    → ((after_handshake (err e) d).0 ≡ ok none) × IsFree (after_handshake (err e) d).1
unfolding after_handshake
released e d h i k = ground (arith, h)

-- A handshake that fails releases the display, whether it was free or held by a session before.
pub session_fails :
    (e : Raised) (d : Daemon)
    → IsConsistent d
    → d.arbiter ≢ airplay
    → e ≢ value_error
    → ((handle_miracast_connected (err e) d).0 ≡ ok none)
      × IsFree (handle_miracast_connected (err e) d).1
unfolding handle_miracast_connected
session_fails e d h i k =
    let (fine, consistent, held) = begins d h i in
    rw (bind-ok begin_session (λ _. after_handshake (err e)) d tt fine)
      (released e (begin_session d).1 consistent held k)

pub session_ends :
    (r : Result Raised Ended) (d : Daemon)
    → IsStreaming d
    → r ≢ ok out_of_fuel
    → IsFree (after_steady_state r d).1
unfolding after_steady_state
session_ends r d h k = ground arith

after_handshake_ends :
    (fuel : ℕ) (c : Channel) (r : Result Raised Negotiator) (d : Daemon)
    → IsConsistent d
    → d.arbiter ≡ idle
    → left_over c < fuel
    → r ≢ err value_error
    → IsFree ((handle_miracast_connected r >>= pump_if fuel c) d).1
after_handshake_ends fuel c (ok n) d h i f k =
    let s = session_starts n d h i in
    rw (bind-ok (handle_miracast_connected (ok n)) (pump_if fuel c) d (some n) s.0) (
      session_ends (Session.run_steady_state fuel n c).0 _ s.1 (run_steady_state_ends fuel n c f).0)
after_handshake_ends fuel c (err e) d h i f k =
    let s = session_fails e d h (λ a. cc (i, a)) (λ p. k (rw p refl)) in
    rw (bind-ok (handle_miracast_connected (err e)) (pump_if fuel c) d none s.0) (s.1)

-- Every Miracast session ends with the room free: from a consistent daemon that nobody presents
-- on, for every control channel and whatever the source sends on it, with fuel for the input that
-- the handshake leaves, for every outcome of the handshake but `ValueError`, and however the steady
-- state ends (a raised exception included), the arbiter is idle, no render pipeline runs, uxplay
-- runs, the sink is announced as free, the idle screen shows no PIN, and no control socket is left.
pub run_source_session_frees :
    (is_word : ℕ → Bool) (caps : WfdCapabilities) (fuel : ℕ) (ip : Text) (c : Channel) (d : Daemon)
    → IsConsistent d
    → d.arbiter ≡ idle
    → left_over (Session.negotiate is_word ip (Rtsp.new caps 1028) c).1 < fuel
    → (Session.negotiate is_word ip (Rtsp.new caps 1028) c).0 ≢ err value_error
    → IsFree (run_source_session is_word caps fuel ip c d).1
      × ((run_source_session is_word caps fuel ip c d).1.control_sock ≡ false)
unfolding run_source_session
run_source_session_frees is_word caps fuel ip c d h i f k =
    let (r, c') = Session.negotiate is_word ip (Rtsp.new caps 1028) c in
    let dialled = record d { control_sock = true } in
    let consistent : IsConsistent dialled = ground (arith, h) in
    let free = after_handshake_ends fuel c' r dialled consistent i f k in
    (ground (arith, free), refl)
