-- ===== src/Startup/Main.antt =====
-- The program of castd/main.py: `main` and `find_receiver_conf`. `exists` says which files there
-- are, and `read` gives their texts, where they can be read.
use miracast_device.Base.{
  ℕ, ◌≡◌, refl, ◌≢◌, Bool, Option, none, some, Text, Result, ok, err, if◌then◌else◌, codes,
}
use miracast_device.Config.{RoomConfig, ConfigError, parse_room_config, freq_mhz}
use miracast_device.Config.Lines.{parse_room_config_ok}
use miracast_device.Startup.{Castd, World, StartFault, initial, start}
use miracast_device.Startup.Ready.{IsReady}
use miracast_device.Startup.Answers.{Answers, NamesNetwork}
use miracast_device.Startup.Success.{start_succeeds}

pub data MainFault : Type 0 where
  start_failed : StartFault → MainFault
  key_error : MainFault

unfoldable pub find_receiver_conf : (Text → Bool) → Text
find_receiver_conf exists =
    if exists (codes "/boot/firmware/receiver.conf")
    then codes "/boot/firmware/receiver.conf"
    else if exists (codes "/boot/receiver.conf")
    then codes "/boot/receiver.conf"
    else codes "/boot/firmware/receiver.conf"

-- A world with the configuration of its room.
abbrev pub with_config : World → RoomConfig → ℕ → World
with_config w c freq = record w { device_name = c.room_name; freq_mhz = freq }

abbrev exit_code : Result StartFault (Unit {0}) × Castd → Result MainFault ℕ × Castd
exit_code (ok u, s) = (ok 0, s)
exit_code (err e, s) = (err (start_failed e), s)

abbrev run_with : World → RoomConfig → Option ℕ → Result MainFault ℕ × Castd
run_with w c none = (err key_error, initial)
run_with w c (some freq) = exit_code (start (with_config w c freq) initial)

abbrev main_with : World → Result ConfigError RoomConfig → Result MainFault ℕ × Castd
main_with w (err e) = (ok 1, initial)
main_with w (ok c) = run_with w c (freq_mhz c)

abbrev main_on : World → Option Text → Result MainFault ℕ × Castd
main_on w none = (ok 1, initial)
main_on w (some text) = main_with w (parse_room_config text)

-- `main`, up to the wait for the signal thread.
unfoldable pub main : (Text → Bool) → (Text → Option Text) → World → Result MainFault ℕ × Castd
unfolding find_receiver_conf
main exists read w = main_on w (read (find_receiver_conf exists))

-- With a configuration file that is read and that the parser accepts, and a world that answers
-- (wpa_supplicant knows the interface and takes what it is told, the group has an interface
-- afterwards, whose network name and passphrase can be read, the commands succeed and the control
-- port is free), the program starts: nobody presents on a consistent daemon, the DHCP server and the
-- control listener serve the interface of the group, and the screen names the network name and
-- passphrase that wpa_supplicant has for that interface and shows no PIN.
pub main_serves :
    (exists : Text → Bool) (read : Text → Option Text) (w : World) (text : Text) (c : RoomConfig)
    → read (find_receiver_conf exists) ≡ some text
    → parse_room_config text ≡ ok c
    → ((freq : ℕ) → freq_mhz c ≡ some freq → Answers (with_config w c freq))
    → ((main exists read w).0 ≡ ok 0)
      × IsReady w.bus_later (main exists read w).1
      × NamesNetwork w.bus_later (main exists read w).1
unfolding main
main_serves exists read w text c found parsed answers =
    let (freq, has, _, _) = (parse_room_config_ok text c parsed).0.has_freq in
    let (t, starts, ready, names) = start_succeeds (with_config w c freq) (answers freq has) in
    rw (found, parsed, has, starts) (refl, ready, names)

refused :
    (w : World) (r : Result ConfigError RoomConfig)
    → ((c : RoomConfig) → r ≢ ok c)
    → main_with w r ≡ (ok 1, initial)
refused w (err e) h = refl
refused w (ok c) h = absurd (h c refl)

refused_on :
    (w : World) (file : Option Text)
    → ((text : Text) (c : RoomConfig) → file ≡ some text → parse_room_config text ≢ ok c)
    → main_on w file ≡ (ok 1, initial)
refused_on w none h = refl
refused_on w (some text) h = refused w (parse_room_config text) (λ c. h text c refl)

-- A file that cannot be read or is refused makes the program exit with 1, and nothing is started.
pub main_refuses :
    (exists : Text → Bool) (read : Text → Option Text) (w : World)
    → ((text : Text) (c : RoomConfig)
        → read (find_receiver_conf exists) ≡ some text
        → parse_room_config text ≢ ok c)
    → main exists read w ≡ (ok 1, initial)
unfolding main
main_refuses exists read w h = refused_on w (read (find_receiver_conf exists)) h
