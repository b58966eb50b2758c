-- ===== src/Tests/Visits.antt =====
-- Sources and stations that come to a daemon of castd/main.py, one after another.
use miracast_device.Base.{
  ◌≡◌, refl, true, false, List, [], ◌∷◌, none, some, err, arith, codes, Text, find?, starts_with,
}
use miracast_device.Arbiter.{State, idle, miracast, airplay_connected, miracast_connected}
use miracast_device.Process.{absent, alive}
use miracast_device.Rtsp
use miracast_device.Rtsp.{WfdCapabilities, aac, os_error}
use miracast_device.Session
use miracast_device.Session.{Channel, chunk, failed}
use miracast_device.Daemon.{Daemon, on_screen, run_source_session}
use miracast_device.Daemon.Consistent.{IsConsistent, event, uxplay_dies}
use miracast_device.Daemon.Sessions.{IsFree, IsStreaming}
use miracast_device.Daemon.Accepting.{IsServed, stray_connection_ends_session}
use miracast_device.Daemon.Heartbeat.{Beat}
use miracast_device.Startup.Arrivals.{Arrival, station, source, arrive_all, arrive_all-IsFree}

abbrev room : State → Daemon
room s = record {
  arbiter = s;
  render = record { child = absent; first_frame_seen = false };
  uxplay = some (record { child = alive; expect_exit = false });
  health = s;
  published = true;
  painted = none;
  footer = none;
  credentials = none;
  control_sock = false;
  render_pipeline_expected = false;
  screen = on_screen;
  takes_ies = true;
}

free-IsConsistent : IsConsistent (room idle)
free-IsConsistent = record {
  airplay_open = refl;
  discovery = refl;
  reported = refl;
  screen_works = refl;
  bus_takes = refl;
}

free-IsFree : IsFree (room idle)
free-IsFree = record {
  consistent = free-IsConsistent;
  unheld = refl;
  not_rendering = refl;
  no_pin = refl;
}

abbrev streaming_room : Daemon
streaming_room = record (room miracast) {
  render = record { child = alive; first_frame_seen = true };
  uxplay = some (record { child = absent; expect_exit = true });
  published = false;
  control_sock = true;
  render_pipeline_expected = true;
}

streaming_room-IsStreaming : IsStreaming streaming_room
streaming_room-IsStreaming = record {
  consistent = record {
    airplay_open = refl;
    discovery = refl;
    reported = refl;
    screen_works = refl;
    bus_takes = refl;
  };
  held = refl;
  rendering = refl;
  expected = refl;
}

abbrev caps : WfdCapabilities
caps = record {
  audio_codec = aac;
  allow_1080p60 = false;
  device_name = codes "Lab";
  sink_model = codes "castd";
  sink_version = codes "1";
  enable_uibc = false;
  edid = none;
}

-- A source that sends half an OPTIONS request, and then resets the connection.
abbrev reset_connection : Channel
reset_connection = record {
  buf = [];
  inbound = chunk (codes "OPTIONS * RTSP") ∷ failed ∷ [];
  sent = [];
  send_fails = λ k. false;
}

reset_handshake :
    (ip : Text)
    → Session.negotiate (λ c. true) ip (Rtsp.new caps 1028) reset_connection
      ≡ (err os_error, record reset_connection { buf = codes "OPTIONS * RTSP"; inbound = [] })
unfolding Session.negotiate Rtsp.new Session.next_message Session.next_bytes Session.frame find?
    starts_with Session.cut
reset_handshake ip = refl

reset-IsServed : (ip : Text) → IsServed (λ c. true) caps 100 ip reset_connection
reset-IsServed ip = rw (reset_handshake ip) (omega arith, ground arith)

abbrev visits : List Arrival
visits =
    source (codes "10.0.0.2") reset_connection
    ∷ station (none ∷ some (codes "10.0.0.3") ∷ []) (λ k. true) (λ k. reset_connection)
    ∷ station (none ∷ none ∷ []) (λ k. true) (λ k. reset_connection)
    ∷ []

arrive_all-IsFree_example : IsFree (arrive_all (λ c. true) caps 100 visits (room idle))
arrive_all-IsFree_example =
    arrive_all-IsFree (λ c. true) caps 100 visits (room idle) free-IsFree
      (
        reset-IsServed (codes "10.0.0.2"),
        (λ ip k. reset-IsServed ip, (λ ip k. reset-IsServed ip, tt)),
      )

stray_connection_ends_session_example :
    let after =
      (run_source_session
        (λ c. true)
        caps
        100
        (codes "10.0.0.9")
        reset_connection
        streaming_room).1 in
    IsFree after × (after.control_sock ≡ false)
stray_connection_ends_session_example =
    stray_connection_ends_session (λ c. true) caps 100 (codes "10.0.0.9") reset_connection
      streaming_room os_error streaming_room-IsStreaming
      (rw (reset_handshake (codes "10.0.0.9")) refl) (ground arith)

-- Four beats, of which the last is not delivered, and one that would come after it.
abbrev day : List Beat
day =
    (true, [])
    ∷ (true, event airplay_connected ∷ [])
    ∷ (true, uxplay_dies ∷ event miracast_connected ∷ [])
    ∷ (false, [])
    ∷ (true, [])
    ∷ []
