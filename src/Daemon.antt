-- ===== src/Daemon.antt =====
-- castd/main.py: the wiring of `CastDaemon`. Each function below is the stretch of a handler that
-- runs on one thread; a history is a sequence of such stretches. Logging is left out.
pub mod Consistent
pub mod Sessions
pub mod Conducted
pub mod Standard
pub mod Presenting
pub mod WatchLoop
pub mod Accepting
pub mod Heartbeat
pub mod Findings
pub mod ColdStart
pub mod Threads
pub use miracast_device.Base.Steps.{◌>>=◌, ◌>>◌}
use miracast_device.Base.{
  ℕ, zero, suc, ◌+◌, Bool, true, false, not, ◌&&◌, ◌||◌, List, [], ◌∷◌, Option, none, some, Text,
  Result, ok, err, if◌then◌else◌,
}
use miracast_device.Arbiter
use miracast_device.Arbiter.{
  State, idle, miracast, airplay, Event, miracast_connected, miracast_disconnected,
  airplay_connected, airplay_disconnected, Action, show_idle_screen, stop_render_pipeline,
  pause_airplay_advertising, resume_airplay_advertising, pause_miracast_discovery,
  resume_miracast_discovery, force_teardown_miracast, force_teardown_airplay,
  log_rejected_connection,
}
use miracast_device.Process.{
  RenderProcess, UxPlayProcess, is_running, start_render, stop_render, start_uxplay, stop_uxplay,
}
use miracast_device.Rtsp
use miracast_device.Rtsp.{Negotiator, Raised, value_error, os_error, timeout_error}
use miracast_device.Session
use miracast_device.Session.{Channel, Ended, returned, out_of_fuel}
use miracast_device.StreamWatchdog
use miracast_device.StreamWatchdog.{StreamWatchdog}

-- What a handler may raise: an exception of the session, `RuntimeError` of a process that runs
-- already, `AttributeError` where `self.uxplay` is still None, or the `OSError` of an idle screen whose
-- picture cannot be saved. `unfinished` is no exception: the steady state has not come to its end
-- within its fuel.
pub data Fault : Type 0 where
  session_raised : Raised → Fault
  runtime_error attribute_error not_saved : Fault
  unfinished : Fault

-- What becomes of an idle screen: it is shown, `paint_framebuffer` raises, or `render_idle_screen`
-- does.
pub data Screen : Type 0 where
  on_screen not_painted not_rendered : Screen

-- The fields of `CastDaemon` that its handlers read and write. `published` is the availability
-- that the WFD element last announced, `painted` and `footer` the PIN and the network of the idle
-- screen last painted, and `credentials` the network that the next one names. The last two are no
-- fields of the class, but what its surroundings do: what becomes of an idle screen, and whether the
-- bus takes a new WFD element.
pub record Daemon : Type 0 where
  pub arbiter : State
  pub render : RenderProcess
  pub uxplay : Option UxPlayProcess
  pub health : State
  pub published : Bool
  pub painted : Option Text
  pub footer : Option (Text × Text)
  pub credentials : Option (Text × Text)
  pub control_sock : Bool
  pub render_pipeline_expected : Bool
  pub screen : Screen
  pub takes_ies : Bool

-- A stretch of a handler: what it has written stays written when it raises.
abbrev pub Act {ℓ} : Type ℓ → Type ℓ
Act A = Daemon → Result Fault A × Daemon

abbrev pub done : Act (Unit {0})
done d = (ok tt, d)

abbrev show_as : Screen → Option Text → Act (Unit {0})
show_as on_screen pin d = (ok tt, record d { painted = pin; footer = d.credentials })
show_as not_painted pin d = (ok tt, d)
show_as not_rendered pin d = (err not_saved, d)

-- `_show_idle_screen`: what `paint_framebuffer` raises is caught, what `render_idle_screen` raises is
-- not.
unfoldable pub show_idle : Option Text → Act (Unit {0})
show_idle pin d = show_as d.screen pin d

-- `self.uxplay.start()` and `self.uxplay.stop()`.
unfoldable pub uxplay_start : Act (Unit {0})
unfolding start_uxplay
uxplay_start d = elim d.uxplay [
  | none ↦ (err attribute_error, d)
  | some u ↦ elim (start_uxplay u) [
    | err e ↦ (err runtime_error, d)
    | ok u' ↦ (ok tt, record d { uxplay = some u' })
  ]
]

unfoldable pub uxplay_stop : Act (Unit {0})
unfolding stop_uxplay
uxplay_stop d = elim d.uxplay [
  | none ↦ (err attribute_error, d)
  | some u ↦ (ok tt, record d { uxplay = some (stop_uxplay u) })
]

unfoldable pub render_start : Act (Unit {0})
unfolding start_render
render_start d = elim (start_render d.render) [
  | err e ↦ (err runtime_error, d)
  | ok r ↦ (ok tt, record d { render = r })
]

unfoldable pub render_stop : Act (Unit {0})
unfolding stop_render
render_stop d = (ok tt, record d { render = stop_render d.render })

-- `set_session_available`: the `DBusException` of a bus that does not take the element is caught.
unfoldable pub publish : Bool → Act (Unit {0})
publish available d = (ok tt, if d.takes_ies then record d { published = available } else d)

-- One action of `_apply_actions`.
unfoldable pub apply_action : Action → Act (Unit {0})
unfolding show_idle uxplay_start uxplay_stop render_stop publish
apply_action stop_render_pipeline = render_stop
apply_action show_idle_screen = show_idle none
apply_action pause_airplay_advertising = uxplay_stop
apply_action resume_airplay_advertising = uxplay_start
apply_action pause_miracast_discovery = publish false
apply_action resume_miracast_discovery = publish true
apply_action force_teardown_miracast = done
apply_action force_teardown_airplay = done
apply_action log_rejected_connection = done

unfoldable pub apply_each : List Action → Act (Unit {0})
unfolding apply_action
apply_each [] = done
apply_each (a ∷ actions) = do apply_action a; apply_each actions

abbrev report_health : Act (Unit {0})
report_health d = (ok tt, record d { health = d.arbiter })

-- `_apply_actions`.
unfoldable pub apply_actions : List Action → Act (Unit {0})
unfolding apply_each
apply_actions actions = do apply_each actions; report_health

-- `arbiter.handle(event)` under the lock, then `_apply_actions`.
unfoldable pub deliver : Event → Act (Unit {0})
unfolding apply_actions Arbiter.handle
deliver event d =
    let t = Arbiter.handle d.arbiter event in
    apply_actions t.actions (record d { arbiter = t.next_state })

unfoldable pub on_airplay_connected : Act (Unit {0})
unfolding deliver
on_airplay_connected = deliver airplay_connected

unfoldable pub on_airplay_disconnected : Act (Unit {0})
unfolding deliver
on_airplay_disconnected = deliver airplay_disconnected

unfoldable pub handle_miracast_disconnected : Act (Unit {0})
unfolding deliver
handle_miracast_disconnected = deliver miracast_disconnected

abbrev is_airplay : State → Bool
is_airplay airplay = true
is_airplay _ = false

abbrev pub is_miracast : State → Bool
is_miracast miracast = true
is_miracast _ = false

abbrev needs_restart : Option UxPlayProcess → Bool
needs_restart none = false
needs_restart (some u) = not (is_running u.child)

-- `_on_uxplay_exited` up to its sleep: whether `uxplay.start()` is to follow it.
unfoldable pub on_uxplay_exited : Act Bool
unfolding on_airplay_disconnected is_running
on_uxplay_exited = do
  (λ d. if is_airplay d.arbiter then on_airplay_disconnected d else done d)
  λ d. (ok (needs_restart d.uxplay), d)

-- After the sleep.
unfoldable pub restart_uxplay : Bool → Act (Unit {0})
unfolding uxplay_start
restart_uxplay restart d = if restart then uxplay_start d else done d

unfoldable pub on_display_pin_needed : Text → Act (Unit {0})
unfolding show_idle
on_display_pin_needed pin = show_idle (some pin)

-- `handle_miracast_connected` before the handshake.
unfoldable pub begin_session : Act (Unit {0})
unfolding deliver
begin_session = deliver miracast_connected

abbrev set_expected : Bool → Act (Unit {0})
set_expected b d = (ok tt, record d { render_pipeline_expected = b })

-- `handle_miracast_connected` after the handshake. `NegotiationError` and `OSError`, of which
-- `TimeoutError` is one, are caught; a `ValueError` is not.
unfoldable pub after_handshake : Result Raised Negotiator → Act (Option Negotiator)
unfolding render_start render_stop handle_miracast_disconnected
after_handshake (ok n) = do render_stop; render_start; set_expected true; λ d. (ok (some n), d)
after_handshake (err value_error) = λ d. (err (session_raised value_error), d)
after_handshake (err e) = do handle_miracast_disconnected; λ d. (ok none, d)

-- `handle_miracast_connected`, given what its `negotiate` returns or raises.
unfoldable pub handle_miracast_connected : Result Raised Negotiator → Act (Option Negotiator)
unfolding begin_session after_handshake
handle_miracast_connected r = do begin_session; after_handshake r

-- `_pump_control_channel` after the steady state: its `finally` runs whatever ended it, and what
-- was raised is raised again.
abbrev raise_again : Result Raised Ended → Act (Unit {0})
raise_again (ok e) d = (ok tt, d)
raise_again (err e) d = (err (session_raised e), d)

unfoldable pub after_steady_state : Result Raised Ended → Act (Unit {0})
unfolding handle_miracast_disconnected
after_steady_state (ok out_of_fuel) = λ d. (err unfinished, d)
after_steady_state r = do handle_miracast_disconnected; raise_again r

abbrev close_control {ℓ} : {A : Type ℓ} → A × Daemon → A × Daemon
close_control (r, d) = (r, record d { control_sock = false })

abbrev pub pump_if : ℕ → Channel → Option Negotiator → Act (Unit {0})
pump_if fuel c none = done
pump_if fuel c (some n) = after_steady_state (Session.run_steady_state fuel n c).0

-- `_run_source_session` with `handle_miracast_connected` and `_pump_control_channel`, when no
-- other thread comes between: the capabilities, the handshake on the channel, and the steady state.
unfoldable pub run_source_session :
    (ℕ → Bool) → Rtsp.WfdCapabilities → ℕ → Text → Channel → Act (Unit {0})
unfolding handle_miracast_connected
run_source_session is_word capabilities fuel source_ip c d =
    let (r, c') = Session.negotiate is_word source_ip (Rtsp.new capabilities 1028) c in
    close_control
      ((handle_miracast_connected r >>= pump_if fuel c') (record d { control_sock = true }))

-- What the other threads contribute to one attempt of `_recover_render_cold_start`: whether a
-- frame shows up in time, and what they do during the wait and while the pipeline stops.
pub record Attempt : Type 0 where
  pub first_frame : Bool
  pub during_wait : Daemon → Daemon
  pub during_stop : Daemon → Daemon

-- One attempt from the stop of the pipeline on: `render.start` unless the session has ended.
unfoldable pub restart_render : Act (Unit {0}) → Act (Unit {0})
unfolding render_start
restart_render again d =
    if is_miracast d.arbiter then (do render_start; set_expected true; again) d else done d

unfoldable pub reroll : Attempt → Act (Unit {0}) → Act (Unit {0})
unfolding restart_render render_stop
reroll a again = do set_expected false; render_stop; λ d. restart_render again (a.during_stop d)

-- Whether the attempt finds a pipeline that it has to restart.
unfoldable pub is_frozen : Attempt → Daemon → Bool
unfolding is_running
is_frozen a d =
    not a.first_frame
    && is_miracast d.arbiter
    && d.render_pipeline_expected
    && is_running d.render.child

-- `_recover_render_cold_start`, with the attempts that are left of its three.
unfoldable pub recover_render_cold_start : List Attempt → Act (Unit {0})
unfolding reroll is_frozen
recover_render_cold_start [] d = (ok tt, d)
recover_render_cold_start (a ∷ rest) d =
    let again = recover_render_cold_start rest in
    let waited = a.during_wait d in
    if is_frozen a waited then reroll a again waited else (ok tt, waited)

-- What one pass of `_stream_watch_tick` leaves: the detector, the daemon, and whether it closed
-- the control socket.
pub record Tick : Type 0 where
  pub watchdog : StreamWatchdog
  pub daemon : Daemon
  pub tripped : Bool

abbrev ticked : StreamWatchdog → Daemon → Bool → Tick
ticked w d b = record { watchdog = w; daemon = d; tripped = b }

-- `_trip_stream_watchdog`: whether there is a control socket, which it then closes.
abbrev trip_stream_watchdog : Daemon → Bool
trip_stream_watchdog d = d.control_sock

abbrev observed : Daemon → StreamWatchdog × Bool → Tick
observed d (w, true) = ticked (StreamWatchdog.reset w) d (trip_stream_watchdog d)
observed d (w, false) = ticked w d false

-- `_stream_watch_tick`: `rx_bytes` is none where the interface or its counter is missing.
unfoldable pub stream_watch_tick : StreamWatchdog → Option ℕ → ℕ → Daemon → Tick
unfolding is_running StreamWatchdog.observe StreamWatchdog.reset
stream_watch_tick w rx_bytes now d =
    let over = record d { render_pipeline_expected = false } in
    if not (is_miracast d.arbiter)
    then ticked (StreamWatchdog.reset w) over false
    else if not d.render_pipeline_expected
    then ticked w d false
    else if not (is_running d.render.child)
    then ticked (StreamWatchdog.reset w) over (trip_stream_watchdog d)
    else elim rx_bytes [
      | none ↦ ticked w d false
      | some rx ↦ observed d (StreamWatchdog.observe w rx now)
    ]
