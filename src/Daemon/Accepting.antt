-- ===== src/Daemon/Accepting.antt =====
-- `_accept_sources_loop` of castd/main.py: the sources that dial the sink.
use miracast_device.Base.{
  ℕ, ◌<◌, ◌≡◌, ◌≢◌, refl, Bool, List, [], ◌∷◌, Text, err, ok, none, true, false, Result, arith,
}
use miracast_device.Rtsp
use miracast_device.Rtsp.{WfdCapabilities, Negotiator, Raised, value_error}
use miracast_device.Session
use miracast_device.Session.{Channel}
use miracast_device.Session.Steady.{left_over}
use miracast_device.Daemon.{Daemon, run_source_session, handle_miracast_connected, pump_if, ◌>>=◌}
use miracast_device.Daemon.Consistent.{bind-ok}
use miracast_device.Daemon.Sessions.{IsFree, IsStreaming, session_fails}

-- What `accept` gives: a source, or an `OSError` when the listener has been closed.
pub data Accepted : Type 0 where
  accepted : (ip : Text) → Channel → Accepted
  closed : Accepted

-- The loop, with each session through before the next source dials. What a session raises ends its
-- own thread.
unfoldable pub accept_sources_loop :
    (ℕ → Bool) → WfdCapabilities → ℕ → List Accepted → Daemon → Daemon
unfolding run_source_session
accept_sources_loop is_word caps fuel [] d = d
accept_sources_loop is_word caps fuel (closed ∷ later) d = d
accept_sources_loop is_word caps fuel (accepted ip c ∷ later) d =
    accept_sources_loop is_word caps fuel later (run_source_session is_word caps fuel ip c d).1

-- The fuel is more than the input that the handshake leaves, and it does not raise `ValueError`.
abbrev pub IsServed : (ℕ → Bool) → WfdCapabilities → ℕ → Text → Channel → Type 0
IsServed is_word caps fuel ip c =
    (left_over (Session.negotiate is_word ip (Rtsp.new caps 1028) c).1 < fuel)
    × ((Session.negotiate is_word ip (Rtsp.new caps 1028) c).0 ≢ err value_error)

-- A connection to the control port whose handshake fails, while a session streams.
stray_handshake :
    (e : Raised) (d : Daemon)
    → IsStreaming d
    → e ≢ value_error
    → ((handle_miracast_connected (err e) d).0 ≡ ok none)
      × IsFree (handle_miracast_connected (err e) d).1
stray_handshake e d h k = session_fails e d h.consistent (λ a. cc (a, h.held)) k

after_stray_handshake :
    (fuel : ℕ) (c : Channel) (r : Result Raised Negotiator) (d : Daemon) (e : Raised)
    → IsStreaming d
    → r ≡ err e
    → e ≢ value_error
    → IsFree ((handle_miracast_connected r >>= pump_if fuel c) d).1
after_stray_handshake fuel c r d e h n k =
    let s = stray_handshake e d h k in
    rw n (rw (bind-ok (handle_miracast_connected (err e)) (pump_if fuel c) d none s.0) (s.1))

-- Whoever dials the control port ends the session of the presenter: while a Miracast session
-- streams, a second connection whose handshake fails (other than by `ValueError`) takes the arbiter
-- back to idle, stops the render pipeline, announces the sink as free, and forgets the control socket
-- of the session that streams.
pub stray_connection_ends_session :
    (is_word : ℕ → Bool) (caps : WfdCapabilities) (fuel : ℕ) (ip : Text) (c : Channel) (d : Daemon)
    (e : Raised)
    → IsStreaming d
    → (Session.negotiate is_word ip (Rtsp.new caps 1028) c).0 ≡ err e
    → e ≢ value_error
    → let after = (run_source_session is_word caps fuel ip c d).1 in
      IsFree after × (after.control_sock ≡ false)
unfolding run_source_session
stray_connection_ends_session is_word caps fuel ip c d e h n k =
    let (r, c') = Session.negotiate is_word ip (Rtsp.new caps 1028) c in
    let dialled = record d { control_sock = true } in
    let streaming : IsStreaming dialled = ground (arith, h) in
    let free = after_stray_handshake fuel c' r dialled e streaming n k in
    (ground (arith, free), refl)
