-- ===== src/Daemon/Findings.antt =====
-- Where the handlers of castd/main.py leave the policy of the arbiter.
use miracast_device.Base.{
  List, Bool, ◌≡◌, ◌≢◌, ◌∙◌, true, false, Option, some, Text, ℕ, Result, ok, err, arith,
}
use miracast_device.Arbiter.{idle, miracast, airplay, miracast_disconnected}
use miracast_device.Process.{absent, alive, exited}
use miracast_device.Startup.{connect_to_authorized_source}
use miracast_device.Startup.Station.{station_passed_over, busy}
use miracast_device.Rtsp.{WfdCapabilities, Negotiator, value_error}
use miracast_device.Session.{Channel, Ended, out_of_fuel}
use miracast_device.Rtsp.{Raised}
use miracast_device.Daemon.{
  Daemon, Fault, ◌>>=◌, ◌>>◌, session_raised, runtime_error, handle_miracast_connected,
  begin_session, after_steady_state, on_uxplay_exited, restart_uxplay, deliver,
}
use miracast_device.Daemon.Consistent.{IsConsistent, uxplay_child}

-- A Miracast source whose connection the arbiter has rejected, because AirPlay holds the display,
-- is served all the same: after its handshake the render pipeline runs while uxplay runs and the
-- arbiter stays with AirPlay, and the end of that session leaves the pipeline running.
pub rejected_source_renders :
    (n : Negotiator) (r : Result Raised Ended) (d : Daemon)
    → IsConsistent d
    → d.arbiter ≡ airplay
    → r ≢ ok out_of_fuel
    → let e = (handle_miracast_connected (ok n) d).1 in
      let f = (after_steady_state r e).1 in
      ((handle_miracast_connected (ok n) d).0 ≡ ok (some n))
      × (e.arbiter ≡ airplay)
      × (e.render.child ≡ alive)
      × (uxplay_child e.uxplay ≡ some alive)
      × (f.arbiter ≡ airplay)
      × (f.render.child ≡ alive)
unfolding handle_miracast_connected after_steady_state
rejected_source_renders n r d h i k = ground arith

value_error_holds :
    (d : Daemon)
    → IsConsistent d
    → d.arbiter ≡ idle
    → let e = (handle_miracast_connected (err value_error) d).1 in
      ((handle_miracast_connected (err value_error) d).0 ≡ err (session_raised value_error))
      × (e.arbiter ≡ miracast)
      × (uxplay_child e.uxplay ≡ some absent)
      × (e.published ≡ false)
unfolding handle_miracast_connected
value_error_holds d h i = ground arith

-- A handshake that raises `ValueError` on an idle daemon leaves the arbiter with Miracast and
-- uxplay stopped, with the sink announced as busy; the exception passes on, and every station that
-- joins afterwards is passed over, whatever its lease and its answers to the dials.
pub value_error_holds_display :
    (d : Daemon) (is_word : ℕ → Bool) (caps : WfdCapabilities) (fuel : ℕ)
    (polls : List (Option Text)) (connects : ℕ → Bool) (channels : ℕ → Channel)
    → IsConsistent d
    → d.arbiter ≡ idle
    → let e = (handle_miracast_connected (err value_error) d).1 in
      ((handle_miracast_connected (err value_error) d).0 ≡ err (session_raised value_error))
      × (e.arbiter ≡ miracast)
      × (uxplay_child e.uxplay ≡ some absent)
      × (e.published ≡ false)
      × (connect_to_authorized_source is_word caps fuel polls connects channels e ≡ (ok tt, e))
value_error_holds_display d is_word caps fuel polls connects channels h i =
    let (raised, held, stopped, busy_sink) = value_error_holds d h i in
    (
      raised,
      held,
      stopped,
      busy_sink,
      station_passed_over is_word caps fuel polls connects channels _ (busy held),
    )

restart_needed :
    (d : Daemon)
    → d.arbiter ≡ idle
    → uxplay_child d.uxplay ≡ some exited
    → on_uxplay_exited d ≡ (ok true, d)
unfolding on_uxplay_exited
restart_needed d h k = ground arith

began :
    (d : Daemon)
    → d.arbiter ≡ idle
    → uxplay_child d.uxplay ≡ some exited
    → d.takes_ies ≡ true
    → let e = (begin_session d).1 in
      ((begin_session d).0 ≡ ok tt)
      × (e.arbiter ≡ miracast)
      × (uxplay_child e.uxplay ≡ some absent)
      × (e.published ≡ false)
      × (e.health ≡ miracast)
      × (e.painted ≡ d.painted)
unfolding begin_session
began d h k t = ground arith

relaunched :
    (d : Daemon)
    → uxplay_child d.uxplay ≡ some absent
    → let e = (restart_uxplay true d).1 in
      ((restart_uxplay true d).0 ≡ ok tt)
      × (uxplay_child e.uxplay ≡ some alive)
      × (e.arbiter ≡ d.arbiter)
      × (e.published ≡ d.published)
      × (e.health ≡ d.health)
      × (e.painted ≡ d.painted)
unfolding restart_uxplay
relaunched d h = ground arith

release_raises :
    (d : Daemon)
    → d.arbiter ≡ miracast
    → uxplay_child d.uxplay ≡ some alive
    → let e = (deliver miracast_disconnected d).1 in
      ((deliver miracast_disconnected d).0 ≡ err runtime_error)
      × (e.arbiter ≡ idle)
      × (e.published ≡ d.published)
      × (e.health ≡ d.health)
      × (e.painted ≡ d.painted)
unfolding deliver
release_raises d h k = ground arith

-- The exit handler up to its sleep, a Miracast connection, the rest of the exit handler, and the
-- end of the Miracast session.
abbrev pub relaunch_in_session : Daemon → Result Fault (Unit {0}) × Daemon
relaunch_in_session = do
  restart ← on_uxplay_exited
  begin_session
  restart_uxplay restart
  deliver miracast_disconnected

-- If uxplay has died on an idle daemon whose bus takes what is announced, and a Miracast source
-- connects while `_on_uxplay_exited` sleeps, the end of that session raises `RuntimeError`: the arbiter is idle, but the sink stays
-- announced as busy, the health endpoint still shows Miracast, and the screen is what it was.
pub relaunch_races_session :
    (d : Daemon)
    → d.arbiter ≡ idle
    → uxplay_child d.uxplay ≡ some exited
    → d.takes_ies ≡ true
    → let e = (relaunch_in_session d).1 in
      ((relaunch_in_session d).0 ≡ err runtime_error)
      × (e.arbiter ≡ idle)
      × (e.published ≡ false)
      × (e.health ≡ miracast)
      × (e.painted ≡ d.painted)
relaunch_races_session d h k t =
    let b = began d h k t in
    let e = (begin_session d).1 in
    let r = relaunched e b.2 in
    let l = release_raises (restart_uxplay true e).1 (r.2 ∙ b.1) r.1 in
    rw (restart_needed d h k, b.0, r.0)
      (l.0, l.1, l.2 ∙ r.3 ∙ b.3, l.3 ∙ r.4 ∙ b.4, l.4 ∙ r.5 ∙ b.5)
