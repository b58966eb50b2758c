-- ===== src/Tests/Settings.antt =====
-- Concrete configuration files and PINs of castd/config.py, and runs of the arbiter.
use miracast_device.Base.{
  is_line_end, is_space, lstrip, drop_while, ok, ◌≡◌, refl, List, [], ◌∷◌, arith, codes, Text,
  replicate, splitlines,
}
use miracast_device.Config.{
  check_values, missing_from, put, check_found, check_room_name, check_wps_pin, checksum_matches,
  check_passphrase, check_channel, int_of, allowed_channel, RoomConfig, read_line, read_lines,
  parse_room_config,
}
use miracast_device.Config.Parser.{IsValid}
use miracast_device.Config.Lines.{parse_room_config_ok, Says}
use miracast_device.Config.Printer.{print, IsPrintable, parse_room_config-print}
use miracast_device.Arbiter.{
  miracast, Event, miracast_connected, airplay_connected, airplay_disconnected,
  log_rejected_connection, run, run_actions,
}
use miracast_device.Arbiter.Policy.{run_keeps_holder}

abbrev file : Text
file =
    codes
      "# room\nroom_name = Hall\nwps_pin=12345670\npassphrase = 12345678\nchannel=36\nroom_name=Lab\n"

abbrev lab : RoomConfig
lab = record {
  room_name = codes "Lab";
  wps_pin = codes "12345670";
  passphrase = codes "12345678";
  channel = 36;
}

parse_room_config_ok_example : IsValid lab × Says file lab
unfolding parse_room_config read_lines splitlines read_line check_values missing_from put
    check_found check_room_name check_wps_pin checksum_matches check_passphrase check_channel int_of
    allowed_channel
parse_room_config_ok_example = parse_room_config_ok file lab refl

lab-IsPrintable : IsPrintable lab
unfolding is_line_end is_space lstrip drop_while
lab-IsPrintable = record {
  room_name = record {
    one_line = refl;
    front = refl;
    init = codes "La";
    last = b'b';
    ends = refl;
    solid = refl;
  };
  wps_pin = record {
    one_line = refl;
    front = refl;
    init = codes "1234567";
    last = b'0';
    ends = refl;
    solid = refl;
  };
  passphrase = record {
    one_line = refl;
    front = refl;
    init = codes "1234567";
    last = b'8';
    ends = refl;
    solid = refl;
  };
}

parse_room_config-print_example : parse_room_config (print lab) ≡ ok lab
parse_room_config-print_example =
    parse_room_config-print lab parse_room_config_ok_example.0 lab-IsPrintable

abbrev intruders : List Event
intruders = airplay_connected ∷ miracast_connected ∷ airplay_disconnected ∷ []

run_keeps_holder_example :
    (run miracast intruders ≡ miracast)
    × (run_actions miracast intruders ≡ replicate 3 log_rejected_connection)
run_keeps_holder_example =
    run_keeps_holder miracast intruders (ground arith) (refl, (refl, (refl, tt)))
