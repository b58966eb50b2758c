-- ===== src/P2p.antt =====
-- castd/p2p/dbus_go.py: `P2PGroupOwner`. wpa_supplicant and the file system are a parameter: what
-- each call answers, where none or false is a `DBusException` (for the directory an `OSError`).
pub mod Pairing
pub mod Credentials
pub mod Availability
pub mod Announced
pub mod Signals
pub use miracast_device.Base.Steps.{◌>>=◌, ◌>>◌}
use miracast_device.Base.{
  ℕ, Bool, true, false, List, [], ◌∷◌, ◌++◌, Option, none, some, Text, Result, ok, err,
  if◌then◌else◌, codes, starts_with, text_eq,
}
use miracast_device.Base.Utf8
use miracast_device.Wfd.{Bytes, BuildError, build_wfd_ies, to_dbus_byte_array}

pub record Bus : Type 0 where
  pub get_interface : Text → Option Text
  pub create_interface : Text → Text → Option Text
  pub set_device_name : Text → Bool
  pub set_primary_device_type : List ℕ → Bool
  pub set_wfd_ies : List ℕ → Bool
  pub group_add : ℕ → Bool
  pub has_object : Text → Bool
  pub wps_start : Text → Text → Bool
  pub group_of : Text → Option Text
  pub ssid : Text → Option Bytes
  pub passphrase : Text → Option Text
  pub net_names : Option (List Text)

pub data P2pError : Type 0 where
  dbus_exception runtime_error key_error : P2pError
  build_error : BuildError → P2pError

-- The fields that the methods read and write, with what wpa_supplicant has last been told: the
-- WFD element, and the PIN that the registrar of an interface is armed with.
pub record P2PGroupOwner : Type 0 where
  pub interface_name : Text
  pub device_name : Text
  pub freq_mhz : ℕ
  pub iface_path : Text
  pub group_iface_path : Option Text
  pub group_credentials : Option (Text × Text)
  pub wfd_ies : Option (List ℕ)
  pub armed : Option (Text × Text)

abbrev pub P2p {ℓ} : Type ℓ → Type ℓ
P2p A = P2PGroupOwner → Result P2pError A × P2PGroupOwner

abbrev answer {ℓ} : {A : Type ℓ} → P2pError → Option A → P2p A
answer e none o = (err e, o)
answer e (some a) o = (ok a, o)

abbrev accept : P2pError → Bool → P2p (Unit {0})
accept e b o = (if b then ok tt else err e, o)

abbrev or_else : Option Text → Option Text → Option Text
or_else none o = o
or_else (some p) o = some p

abbrev pub wpas_opath : Text
wpas_opath = codes "/fi/w1/wpa_supplicant1"

abbrev owner_at : Bus → Text → Text → ℕ → Option Text → Result P2pError P2PGroupOwner
owner_at bus interface_name device_name freq_mhz none = err runtime_error
owner_at bus interface_name device_name freq_mhz (some path) =
    if bus.has_object path
    then ok (record {
      interface_name = interface_name;
      device_name = device_name;
      freq_mhz = freq_mhz;
      iface_path = path;
      group_iface_path = none;
      group_credentials = none;
      wfd_ies = none;
      armed = none;
    })
    else err dbus_exception

-- `__init__` up to the subscriptions: the interface is created if wpa_supplicant has none.
unfoldable pub new : Bus → Text → Text → ℕ → Text → Result P2pError P2PGroupOwner
new bus interface_name device_name freq_mhz wpa_conf_path =
    if bus.has_object wpas_opath
    then owner_at bus interface_name device_name freq_mhz (
        or_else (bus.get_interface interface_name)
          (bus.create_interface interface_name wpa_conf_path))
    else err dbus_exception

abbrev set_ies : Bus → List ℕ → P2p (Unit {0})
set_ies bus bytes o =
    if bus.set_wfd_ies bytes
    then (ok tt, record o { wfd_ies = some bytes })
    else (err dbus_exception, o)

abbrev publish_bytes : Bus → Result BuildError Bytes → P2p (Unit {0})
publish_bytes bus (err e) o = (err (build_error e), o)
publish_bytes bus (ok bytes) o = set_ies bus (to_dbus_byte_array bytes) o

-- `_publish_wfd_ies`, with the port and the throughput of `build_wfd_ies`.
unfoldable pub publish_wfd_ies : Bus → Bool → P2p (Unit {0})
unfolding to_dbus_byte_array
publish_wfd_ies bus available o = publish_bytes bus (build_wfd_ies 7236 50 available) o

abbrev pub primary_device_type : List ℕ
primary_device_type = 0 ∷ 7 ∷ 0 ∷ 0x50 ∷ 0xf2 ∷ 0 ∷ 0 ∷ 0 ∷ []

unfoldable pub configure : Bus → P2p (Unit {0})
unfolding publish_wfd_ies
configure bus = do
  λ o. accept dbus_exception (bus.set_device_name o.device_name) o
  accept dbus_exception (bus.set_primary_device_type primary_device_type)
  publish_wfd_ies bus true

-- `except dbus.DBusException`.
abbrev caught : Result P2pError (Unit {0}) → Result P2pError (Unit {0})
caught (err dbus_exception) = ok tt
caught r = r

unfoldable pub set_session_available : Bus → Bool → P2p (Unit {0})
unfolding publish_wfd_ies
set_session_available bus available o =
    let (r, o') = publish_wfd_ies bus available o in (caught r, o')

unfoldable pub first_with_prefix : Text → List Text → Option Text
unfolding starts_with
first_with_prefix p [] = none
first_with_prefix p (name ∷ names) =
    let later = first_with_prefix p names in if starts_with p name then some name else later

-- `_existing_group_interface` and `get_group_interface_name`.
unfoldable pub existing_group_interface : Bus → P2PGroupOwner → Option Text
unfolding first_with_prefix
existing_group_interface bus o = elim bus.net_names [
  | none ↦ none
  | some names ↦ first_with_prefix (codes "p2p-" ++ (o.interface_name ++ codes "-")) names
]

unfoldable pub start_group : Bus → P2p (Unit {0})
start_group bus o = elim (existing_group_interface bus o) [
  | some name ↦ (ok tt, o)
  | none ↦ accept runtime_error (bus.group_add o.freq_mhz) o
]

abbrev resolved_path : Bus → Option Text → P2p Text
resolved_path bus none = answer runtime_error none
resolved_path bus (some name) = answer dbus_exception (bus.get_interface name)

abbrev group_path_of : Bus → Option Text → P2p Text
group_path_of bus (some path) = answer dbus_exception (some path)
group_path_of bus none = λ o. resolved_path bus (existing_group_interface bus o) o

abbrev checked_object : Bus → Text → P2p Text
checked_object bus path o = (if bus.has_object path then ok path else err dbus_exception, o)

-- `_group_interface_object`: the path of the object.
unfoldable pub group_interface_object : Bus → P2p Text
group_interface_object bus = do
  path ← λ o. group_path_of bus o.group_iface_path o
  checked_object bus path

abbrev arm : Bus → Text → Text → P2p (Unit {0})
arm bus path pin o =
    if bus.wps_start path pin
    then (ok tt, record o { armed = some (path, pin) })
    else (err dbus_exception, o)

unfoldable pub authorize_display_pin : Bus → Text → P2p (Unit {0})
unfolding group_interface_object
authorize_display_pin bus pin = do path ← group_interface_object bus; arm bus path pin

abbrev both : Option Bytes → Option Text → Option (Text × Text)
both (some ssid) (some passphrase) = some (Utf8.decode ssid, passphrase)
both _ _ = none

-- `_read_group_credentials`.
unfoldable pub read_group_credentials : Bus → Text → Option (Text × Text)
read_group_credentials bus path =
    if bus.has_object path then both (bus.ssid path) (bus.passphrase path) else none

abbrev lookup_credentials :
    Bus → Result P2pError Text → P2PGroupOwner → Option (Text × Text) × P2PGroupOwner
lookup_credentials bus (err e) o = (none, o)
lookup_credentials bus (ok path) o =
    let c = read_group_credentials bus path in (c, record o { group_credentials = c })

abbrev group_object_path : Bus → P2p Text
group_object_path bus = do
  path ← group_interface_object bus
  answer dbus_exception (bus.group_of path)

unfoldable pub get_group_credentials : Bus → P2PGroupOwner → Option (Text × Text) × P2PGroupOwner
unfolding group_interface_object
get_group_credentials bus o = elim o.group_credentials [
  | some c ↦ (some c, o)
  | none ↦ lookup_credentials bus (group_object_path bus o).0 o
]

-- `_handle_display_pin_request`: the PIN that is handed to `on_display_pin_needed`.
unfoldable pub handle_display_pin_request : Bus → Text → P2PGroupOwner → Text × P2PGroupOwner
unfolding authorize_display_pin
handle_display_pin_request bus pin o = (pin, (authorize_display_pin bus pin o).1)

pub record GroupProperties : Type 0 where
  pub group_object : Option Text
  pub interface_object : Option Text

pub record GroupInfo : Type 0 where
  pub group_object_path : Text
  pub interface_name : Text
  pub frequency_mhz : ℕ

-- `str(properties.get("interface_object", "")) or None`.
abbrev non_empty_path : Option Text → Option Text
non_empty_path none = none
non_empty_path (some []) = none
non_empty_path (some (c ∷ cs)) = some (c ∷ cs)

-- `_handle_group_started`: what is handed to `on_group_started`.
unfoldable pub handle_group_started : Bus → GroupProperties → P2p GroupInfo
unfolding read_group_credentials
handle_group_started bus properties o = elim properties.group_object [
  | none ↦ (err key_error, o)
  | some path ↦ (
    ok (record {
      group_object_path = path;
      interface_name = o.interface_name;
      frequency_mhz = o.freq_mhz;
    }),
    record o {
      group_iface_path = non_empty_path properties.interface_object;
      group_credentials = read_group_credentials bus path;
    },
  )
]
