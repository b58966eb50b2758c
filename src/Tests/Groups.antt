-- ===== src/Tests/Groups.antt =====
-- A concrete group of castd/p2p/dbus_go.py, a start-up of castd/main.py on it, and a station.
use miracast_device.Base.{
  ℕ, ◌≡◌, ◌≢◌, refl, true, false, List, [], ◌∷◌, Option, none, some, Text, ok, codes, arith, ltb,
  starts_with, splitlines,
}
use miracast_device.Base.Utf8
use miracast_device.Arbiter.{
  idle, miracast, Event, airplay_connected, airplay_disconnected, miracast_connected, run,
  run_actions,
}
use miracast_device.Group
use miracast_device.Rtsp.{WfdCapabilities, aac}
use miracast_device.Session.{Channel, Listener, listener}
use miracast_device.Wfd.{build_wfd_ies}
use miracast_device.P2p.Signals.{Signal, word, interface_of_wpas, dispatch, receivers}
use miracast_device.P2p.Signals.Routes.{routed, route, dispatch_routes}
use miracast_device.P2p
use miracast_device.P2p.{
  Bus, P2PGroupOwner, GroupProperties, handle_display_pin_request, handle_group_started,
  read_group_credentials, set_session_available,
}
use miracast_device.P2p.Pairing.{takes, pin_shown_and_armed}
use miracast_device.P2p.Announced.{Tells, announce_all, is_idle, availability_follows_arbiter}
use miracast_device.Daemon.{Daemon, run_source_session, show_idle, uxplay_start}
use miracast_device.Startup.{Castd, World, initial, start, connect_to_authorized_source}
use miracast_device.Startup
use miracast_device.Startup.Ready.{IsReady}
use miracast_device.Config.{
  RoomConfig, allowed_channel, freq_mhz, parse_room_config, read_lines, read_line, check_values,
  missing_from, put, check_found, check_room_name, check_wps_pin, checksum_matches,
  check_passphrase, check_channel, int_of,
}
use miracast_device.Startup.Regroup.{IsRegrouped, signalled, group_started_shown}
use miracast_device.Startup.Answers.{Answers, NamesNetwork}
use miracast_device.Startup.Main.{main, main_serves, with_config}
use miracast_device.Startup.Station.{station_gets_session}

abbrev bus : Bus
bus = record {
  get_interface = λ name. some (codes "/if/1");
  create_interface = λ name conf. none;
  set_device_name = λ name. true;
  set_primary_device_type = λ bytes. true;
  set_wfd_ies = λ bytes. true;
  group_add = λ freq. true;
  has_object = λ path. true;
  wps_start = λ path pin. true;
  group_of = λ path. some (codes "/group/7");
  ssid = λ path. some (codes "DIRECT-xy");
  passphrase = λ path. some (codes "s3cret12");
  net_names = some (codes "lo" ∷ codes "p2p-wlan1-7" ∷ []);
}

abbrev owner : P2PGroupOwner
owner = record {
  interface_name = codes "wlan1";
  device_name = codes "Lab";
  freq_mhz = 2437;
  iface_path = codes "/if/1";
  group_iface_path = none;
  group_credentials = some (codes "DIRECT-old", codes "old");
  wfd_ies = none;
  armed = none;
}

abbrev properties : GroupProperties
properties = record {
  group_object = some (codes "/group/7");
  interface_object = some (codes "/if/7");
}

pin_shown_and_armed_example :
    let started = (handle_group_started bus properties owner).1 in
    let (shown, o') = handle_display_pin_request bus (codes "12345670") started in
    (shown ≡ codes "12345670") × (o'.armed ≡ takes bus (codes "/if/7") (codes "12345670") none)
pin_shown_and_armed_example =
    pin_shown_and_armed bus bus owner properties b'/' (codes "if/7") (codes "12345670") refl cc

abbrev visitors : List Event
visitors = airplay_connected ∷ miracast_connected ∷ airplay_disconnected ∷ miracast_connected ∷ []

owner_configures : (P2p.configure bus owner).0 ≡ ok tt
unfolding P2p.configure P2p.publish_wfd_ies build_wfd_ies
owner_configures = refl

availability_follows_arbiter_example :
    Tells
      (announce_all bus (run_actions idle visitors) (P2p.configure bus owner).1)
      (is_idle (run idle visitors))
availability_follows_arbiter_example =
    availability_follows_arbiter bus (λ bytes. refl) owner (P2p.configure bus owner).1 visitors
      (λ i. (owner_configures i, (P2p.configure bus owner).1))

abbrev home : World
home = record {
  device_name = codes "Lab";
  freq_mhz = 2437;
  p2p_interface = none;
  bus = bus;
  bus_later = bus;
  runs = λ command. true;
  binds = λ sock. true;
}

home_starts : (start home initial).0 ≡ ok tt
unfolding start initial show_idle uxplay_start Startup.create_owner Startup.configure_owner
    Startup.on_owner Startup.group_name Startup.ensure_group_services Startup.start_network
    Startup.listen Startup.take_credentials P2p.new P2p.configure P2p.publish_wfd_ies
    P2p.start_group P2p.existing_group_interface P2p.first_with_prefix starts_with Group.start
    Group.serves Group.stop build_wfd_ies
home_starts = refl

abbrev caps : WfdCapabilities
caps = record {
  audio_codec = aac;
  allow_1080p60 = false;
  device_name = codes "Lab";
  sink_model = codes "castd";
  sink_version = codes "1";
  enable_uibc = false;
  edid = none;
}

abbrev channel : ℕ → Channel
channel k = record { buf = []; inbound = []; sent = []; send_fails = λ k. false }

abbrev room : Daemon
room = initial.daemon

room_is_free : room.arbiter ≢ miracast
unfolding initial
room_is_free = ground arith

station_gets_session_example :
    connect_to_authorized_source
      (λ c. true)
      caps
      100
      (none ∷ some [] ∷ some (codes "10.0.0.6") ∷ [])
      (λ k. ltb 1 k)
      channel
      room
    ≡ run_source_session (λ c. true) caps 100 (codes "10.0.0.6") (channel 2) room
station_gets_session_example =
    station_gets_session (λ c. true) caps 100 b'1' (codes "0.0.0.6") (none ∷ some [] ∷ []) []
      (λ k. ltb 1 k) 2 channel room room_is_free (tt, (tt, tt)) (omega arith) refl
      (λ i h. ground (arith, h))

abbrev control_listener : Listener
control_listener = listener (codes "192.168.173.1") 7236 1

abbrev running : Castd
running = record initial {
  owner = some owner;
  rtsp_listener = some control_listener;
  daemon = record initial.daemon { credentials = some (codes "DIRECT-old", codes "old") };
}

abbrev regrouped : Castd
regrouped =
    (Startup.on_group_started (λ command. true) (λ sock. true) bus
      (signalled bus properties owner running)).1

regroup_returns :
    (Startup.on_group_started
      (λ command. true)
      (λ sock. true)
      bus
      (signalled bus properties owner running)).0
    ≡ ok tt
unfolding initial show_idle Startup.on_group_started Startup.ensure_group_services
    Startup.start_network Startup.listen Startup.take_credentials P2p.existing_group_interface
    P2p.first_with_prefix starts_with Group.start Group.serves handle_group_started
regroup_returns = refl

group_started_shown_example :
    IsRegrouped (codes "p2p-wlan1-7") (some (codes "DIRECT-xy", codes "s3cret12")) running regrouped
unfolding P2p.existing_group_interface P2p.first_with_prefix starts_with read_group_credentials
    Utf8.decode Utf8.first_byte
group_started_shown_example =
    group_started_shown bus bus properties (λ command. true) (λ sock. true) owner running regrouped
      (codes "/group/7") (codes "p2p-wlan1-7") (codes "DIRECT-xy", codes "s3cret12") refl refl refl
      (λ i. (regroup_returns i, regrouped))

abbrev file : Text
file = codes "room_name=Lab\nwps_pin=12345670\npassphrase=12345678\nchannel=36\n"

abbrev read : Text → Option Text
read path = some file

abbrev lab : RoomConfig
lab = record {
  room_name = codes "Lab";
  wps_pin = codes "12345670";
  passphrase = codes "12345678";
  channel = 36;
}

file_parses : parse_room_config file ≡ ok lab
unfolding parse_room_config read_lines splitlines read_line check_values missing_from put
    check_found check_room_name check_wps_pin checksum_matches check_passphrase check_channel int_of
    allowed_channel
file_parses = refl

home-Answers : (freq : ℕ) → freq_mhz lab ≡ some freq → Answers (with_config home lab freq)
unfolding P2p.first_with_prefix starts_with
home-Answers freq h = record {
  objects = λ path. refl;
  path = codes "/if/1";
  interface = refl;
  takes_name = λ name. refl;
  takes_type = λ bytes. refl;
  takes_ies = λ bytes. refl;
  takes_group = λ f. refl;
  names = codes "lo" ∷ codes "p2p-wlan1-7" ∷ [];
  listed = refl;
  group = codes "p2p-wlan1-7";
  found = refl;
  commands = λ command. refl;
  port_is_free = λ sock. refl;
  later_objects = λ path. refl;
  later_path = codes "/if/1";
  later_interface = refl;
  group_path = codes "/group/7";
  has_group = refl;
  ssid = codes "DIRECT-xy";
  has_ssid = refl;
  passphrase = codes "s3cret12";
  has_passphrase = refl;
}

main_serves_example :
    ((main (λ path. true) read home).0 ≡ ok 0)
    × IsReady bus (main (λ path. true) read home).1
    × NamesNetwork bus (main (λ path. true) read home).1
main_serves_example = main_serves (λ path. true) read home file lab refl file_parses home-Answers

-- wpa_supplicant says that a station may use the group.
abbrev joined : Signal
joined = record {
  interface = interface_of_wpas;
  name = codes "StaAuthorized";
  args = word (codes "aa:bb:cc:dd:ee:ff");
}

dispatch_routes_example :
    dispatch bus receivers joined owner
    ≡ routed bus (route joined.interface joined.name) joined.args owner
dispatch_routes_example = dispatch_routes bus joined owner
