-- ===== src/Tests/Rooms.antt =====
-- A daemon of castd/main.py in concrete situations.
use miracast_device.Base.{
  ◌+◌, ◌≡◌, refl, true, false, List, [], ◌∷◌, none, some, ok, err, arith, codes, map, ltb, find?,
  starts_with, take, replicate, ◌++◌, ℕ, Text, ◌&&◌, ◌||◌, not,
}
use miracast_device.Arbiter.{
  State, idle, miracast, airplay, miracast_connected, airplay_connected, run,
}
use miracast_device.Process.{absent, alive, exited, is_running}
use miracast_device.Rtsp
use miracast_device.Rtsp.{
  WfdCapabilities, Negotiator, streaming, aac, lpcm, value_error, Raised, os_error,
}
use miracast_device.Session
use miracast_device.Session.{Channel, Recv, chunk, failed, timed_out, returned, run_steady_state}
use miracast_device.StreamWatchdog
use miracast_device.StreamWatchdog.{StreamWatchdog}
use miracast_device.StreamWatchdog.Stall.{verdict, verdict_iff_stalled, is_quiet}
use miracast_device.Daemon.{
  Daemon, on_screen, Attempt, handle_miracast_connected, after_steady_state, session_raised,
  runtime_error, run_source_session, stream_watch_tick, is_miracast,
}
use miracast_device.Startup.{connect_to_authorized_source}
use miracast_device.Daemon.Consistent.{
  IsConsistent, Incident, event, uxplay_dies, meet_all, meet_all-IsConsistent, seen, uxplay_child,
}
use miracast_device.Daemon.WatchLoop.{
  Pass, stream_watch_loop, stream_watch_loop_trips, closed, through,
}
use miracast_device.Daemon.Sessions.{IsFree, run_source_session_frees}
use miracast_device.Daemon.Findings.{
  rejected_source_renders, value_error_holds_display, relaunch_races_session, relaunch_in_session,
}
use miracast_device.Daemon.ColdStart.{stream_watch_tick_trips, shows_stall}

abbrev room : State → Daemon
room s = record {
  arbiter = s;
  render = record { child = absent; first_frame_seen = false };
  uxplay = some (record { child = alive; expect_exit = false });
  health = s;
  published = true;
  painted = none;
  footer = none;
  credentials = none;
  control_sock = false;
  render_pipeline_expected = false;
  screen = on_screen;
  takes_ies = true;
}

abbrev free : Daemon
free = room idle

abbrev presenting : Daemon
presenting = record (room airplay) { published = false }

free-IsConsistent : IsConsistent free
free-IsConsistent = record {
  airplay_open = refl;
  discovery = refl;
  reported = refl;
  screen_works = refl;
  bus_takes = refl;
}

presenting-IsConsistent : IsConsistent presenting
presenting-IsConsistent = record {
  airplay_open = refl;
  discovery = refl;
  reported = refl;
  screen_works = refl;
  bus_takes = refl;
}

abbrev caps : WfdCapabilities
caps = record {
  audio_codec = aac;
  allow_1080p60 = false;
  device_name = codes "Lab";
  sink_model = codes "castd";
  sink_version = codes "1";
  enable_uibc = false;
  edid = none;
}

abbrev negotiator : Negotiator
negotiator = Rtsp.new caps 1028

abbrev incidents : List Incident
incidents =
    event airplay_connected
    ∷ uxplay_dies
    ∷ event miracast_connected
    ∷ event airplay_connected
    ∷ uxplay_dies
    ∷ []

meet_all-IsConsistent_example :
    ((meet_all incidents free).0 ≡ ok tt)
    × IsConsistent (meet_all incidents free).1
    × ((meet_all incidents free).1.arbiter ≡ run idle (map seen incidents))
meet_all-IsConsistent_example = meet_all-IsConsistent incidents free free-IsConsistent

-- A source that sends half an OPTIONS request, and then resets the connection.
abbrev reset_connection : Channel
reset_connection = record {
  buf = [];
  inbound = chunk (codes "OPTIONS * RTSP") ∷ failed ∷ [];
  sent = [];
  send_fails = λ k. false;
}

reset_handshake :
    Session.negotiate (λ c. true) (codes "10.0.0.2") (Rtsp.new caps 1028) reset_connection
    ≡ (err os_error, record reset_connection { buf = codes "OPTIONS * RTSP"; inbound = [] })
unfolding Session.negotiate Rtsp.new Session.next_message Session.next_bytes Session.frame find?
    starts_with Session.cut
reset_handshake = refl

run_source_session_frees_example :
    IsFree (run_source_session (λ c. true) caps 100 (codes "10.0.0.2") reset_connection free).1
    × ((run_source_session
          (λ c. true)
          caps
          100
          (codes "10.0.0.2")
          reset_connection
          free).1.control_sock
        ≡ false)
run_source_session_frees_example =
    run_source_session_frees (λ c. true) caps 100 (codes "10.0.0.2") reset_connection free
      free-IsConsistent refl (rw reset_handshake (omega arith)) (rw reset_handshake (ground arith))

rejected_source_renders_example :
    let e = (handle_miracast_connected (ok negotiator) presenting).1 in
    let f = (after_steady_state (ok returned) e).1 in
    ((handle_miracast_connected (ok negotiator) presenting).0 ≡ ok (some negotiator))
    × (e.arbiter ≡ airplay)
    × (e.render.child ≡ alive)
    × (uxplay_child e.uxplay ≡ some alive)
    × (f.arbiter ≡ airplay)
    × (f.render.child ≡ alive)
rejected_source_renders_example =
    rejected_source_renders negotiator (ok returned) presenting presenting-IsConsistent refl
      (ground arith)

value_error_holds_display_example :
    let e = (handle_miracast_connected (err value_error) free).1 in
    ((handle_miracast_connected (err value_error) free).0 ≡ err (session_raised value_error))
    × (e.arbiter ≡ miracast)
    × (uxplay_child e.uxplay ≡ some absent)
    × (e.published ≡ false)
    × (connect_to_authorized_source
          (λ c. true)
          caps
          9
          (some (codes "10.0.0.3") ∷ [])
          (λ k. true)
          (λ k. reset_connection)
          e
        ≡ (ok tt, e))
value_error_holds_display_example =
    value_error_holds_display free (λ c. true) caps 9 (some (codes "10.0.0.3") ∷ []) (λ k. true)
      (λ k. reset_connection) free-IsConsistent refl

abbrev crashed : Daemon
crashed = record free { uxplay = some (record { child = exited; expect_exit = false }) }

relaunch_races_session_example :
    let e = (relaunch_in_session crashed).1 in
    ((relaunch_in_session crashed).0 ≡ err runtime_error)
    × (e.arbiter ≡ idle)
    × (e.published ≡ false)
    × (e.health ≡ miracast)
    × (e.painted ≡ none)
relaunch_races_session_example = relaunch_races_session crashed refl refl refl

abbrev streaming_room : Daemon
streaming_room = record (room miracast) {
  render = record { child = alive; first_frame_seen = false };
  uxplay = some (record { child = absent; expect_exit = true });
  published = false;
  control_sock = true;
  render_pipeline_expected = true;
}

abbrev frozen : Attempt
frozen = record { first_frame = false; during_wait = λ d. d; during_stop = λ d. d }

abbrev watchdog : StreamWatchdog
watchdog = StreamWatchdog.new 10 5000

stream_watch_tick_trips_example :
    let t = stream_watch_tick watchdog (some 100) 7 streaming_room in
    (t.tripped ≡ (
      streaming_room.control_sock
      && is_miracast miracast
      && streaming_room.render_pipeline_expected
      && (not (is_running alive) || shows_stall watchdog (some 100) 7)))
    × (t.daemon ≡ record streaming_room {
      render_pipeline_expected = true && is_miracast miracast && is_running alive;
    })
stream_watch_tick_trips_example = stream_watch_tick_trips watchdog (some 100) 7 streaming_room

verdict_iff_stalled_example :
    verdict (StreamWatchdog.reset watchdog) (0, 0) ((9000, 4) ∷ (9100, 9) ∷ (9200, 15) ∷ [])
    ≡ (ltb (0 + 10) 15 && is_quiet watchdog 15 0 ((9000, 4) ∷ (9100, 9) ∷ (9200, 15) ∷ []))
unfolding StreamWatchdog.new
verdict_iff_stalled_example =
    verdict_iff_stalled watchdog 0 0 9000 4 ((9100, 9) ∷ (9200, 15) ∷ []) (omega arith)

-- Two iPhones connect, one of them leaves, and uxplay goes on.
abbrev one_stays : List Text
one_stays =
    codes "Accepted IPv4 client on socket 7\n"
    ∷ codes "Accepted IPv4 client on socket 8\n"
    ∷ codes "Connection closed on socket 7\n"
    ∷ []

-- A session whose stream stops: passes six seconds apart, with one counter. The session is taken down
-- in the sleep after the third one.
abbrev at_pass : ℕ → ℕ → Pass
at_pass rx now = record { meanwhile = λ d. d; rx_bytes = some rx; now = now }

abbrev after_teardown : Pass
after_teardown = record { meanwhile = λ d. free; rx_bytes = none; now = 18 }

abbrev frozen_session : Daemon
frozen_session = record streaming_room {
  render = record { child = alive; first_frame_seen = true };
}

abbrev in_stream : Negotiator
in_stream = record negotiator { state = streaming }

abbrev silent_channel : Channel
silent_channel = record { inbound = []; buf = []; sent = []; send_fails = λ k. false }

stream_watch_loop_trips_example :
    (take 3
        (stream_watch_loop 10 5000
          (at_pass 7 0 ∷ at_pass 9 6 ∷ at_pass 9 12 ∷ after_teardown ∷ [])
          frozen_session).0
      ≡ replicate 2 false ++ (true ∷ []))
    × IsFree
        (after_steady_state
          (run_steady_state 3 in_stream (closed timed_out silent_channel)).0
          (through (at_pass 7 0 ∷ at_pass 9 6 ∷ at_pass 9 12 ∷ []) frozen_session)).1
stream_watch_loop_trips_example =
    stream_watch_loop_trips 10 5000 7 (at_pass 7 0) (at_pass 9 6 ∷ []) (at_pass 9 12)
      (after_teardown ∷ []) frozen_session 3 in_stream timed_out silent_channel
      (record {
        held = refl;
        connected = refl;
        expected = refl;
        rendering = refl;
        consistent = record {
          airplay_open = refl;
          discovery = refl;
          reported = refl;
          screen_works = refl;
          bus_takes = refl;
        };
      })
      (λ d h. h, (λ d h. h, (λ d h. h, tt))) refl (9, refl, omega arith, (9, refl, omega arith, tt))
      (omega arith, tt) (omega arith) (omega arith)
