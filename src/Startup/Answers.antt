-- ===== src/Startup/Answers.antt =====
-- What the start of castd/main.py needs of its surroundings, and the network that it shows.
use miracast_device.Base.{◌≡◌, ℕ, true, List, some, Text, codes, ◌++◌}
use miracast_device.Base.Utf8
use miracast_device.P2p
use miracast_device.P2p.{Bus}
use miracast_device.Session.{Listener}
use miracast_device.Startup.{Castd, World, env_or}

-- A world that answers: wpa_supplicant knows the interface and takes what it is told, the group has
-- an interface afterwards, whose network name and passphrase can be read, the commands succeed, and
-- the control port is free.
pub record Answers (w : World) : Type 0 where
  pub objects : (path : Text) → w.bus.has_object path ≡ true
  pub path : Text
  pub interface : w.bus.get_interface (env_or w.p2p_interface) ≡ some path
  pub takes_name : (name : Text) → w.bus.set_device_name name ≡ true
  pub takes_type : (bytes : List ℕ) → w.bus.set_primary_device_type bytes ≡ true
  pub takes_ies : (bytes : List ℕ) → w.bus.set_wfd_ies bytes ≡ true
  pub takes_group : (freq : ℕ) → w.bus.group_add freq ≡ true
  pub names : List Text
  pub listed : w.bus_later.net_names ≡ some names
  pub group : Text
  pub found :
      P2p.first_with_prefix (codes "p2p-" ++ (env_or w.p2p_interface ++ codes "-")) names
      ≡ some group
  pub commands : (command : List Text) → w.runs command ≡ true
  pub port_is_free : (sock : Listener) → w.binds sock ≡ true
  pub later_objects : (path : Text) → w.bus_later.has_object path ≡ true
  pub later_path : Text
  pub later_interface : w.bus_later.get_interface group ≡ some later_path
  pub group_path : Text
  pub has_group : w.bus_later.group_of later_path ≡ some group_path
  pub ssid : List ℕ
  pub has_ssid : w.bus_later.ssid group_path ≡ some ssid
  pub passphrase : Text
  pub has_passphrase : w.bus_later.passphrase group_path ≡ some passphrase

-- The network that the screen names is the one that wpa_supplicant has for the interface served.
pub record NamesNetwork (bus : Bus) (t : Castd) : Type 0 where
  pub group : Text
  pub on_interface : t.network.interface_name ≡ some group
  pub path : Text
  pub interface : bus.get_interface group ≡ some path
  pub group_path : Text
  pub of_interface : bus.group_of path ≡ some group_path
  pub ssid : List ℕ
  pub has_ssid : bus.ssid group_path ≡ some ssid
  pub passphrase : Text
  pub has_passphrase : bus.passphrase group_path ≡ some passphrase
  pub footer : t.daemon.footer ≡ some (Utf8.decode ssid, passphrase)
