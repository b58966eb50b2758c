-- ===== src/P2p/Signals.antt =====
-- The signals that castd/p2p/dbus_go.py subscribes to, and what each of them sets off.
pub mod Routes
use mathlib.Core.List.{append-nil}
use mathlib.Core.Path.{subst}
use miracast_device.Base.{
  ◌≡◌, refl, sym, ap, ◌∙◌, Bool, true, false, ◌&&◌, List, [], ◌∷◌, ◌++◌, all, not, Option, none,
  some, Text, Result, ok, err, codes, text_eq, text_eq_iff, if◌then◌else◌, Bool-cases, inl, inr,
  arith,
}
use miracast_device.P2p.{
  Bus, P2PGroupOwner, P2pError, GroupInfo, GroupProperties, handle_group_started,
  handle_display_pin_request,
}

-- The arguments of a signal: a dictionary, a text (further arguments are ignored), or the path of a
-- peer and a PIN.
pub data Args : Type 0 where
  properties : GroupProperties → Args
  word : Text → Args
  peer_pin : (peer pin : Text) → Args
  others : Args

pub record Signal : Type 0 where
  pub interface : Text
  pub name : Text
  pub args : Args

pub data Handler : Type 0 where
  group_started wps_failed display_pin_request station_authorized : Handler
  logged : (signal_name : Text) → Handler

-- The callbacks of the daemon.
pub data Upcall : Type 0 where
  on_group_started : GroupInfo → Upcall
  on_wps_failed on_display_pin_needed on_station_authorized : Text → Upcall

pub record Receiver : Type 0 where
  pub handler : Handler
  pub interface : Text
  pub name : Text

abbrev receiver : Handler → Text → Text → Receiver
receiver h i n = record { handler = h; interface = i; name = n }

abbrev pub p2p_device : Text
p2p_device = codes "fi.w1.wpa_supplicant1.Interface.P2PDevice"

abbrev pub wps_interface : Text
wps_interface = codes "fi.w1.wpa_supplicant1.Interface.WPS"

abbrev pub interface_of_wpas : Text
interface_of_wpas = codes "fi.w1.wpa_supplicant1.Interface"

-- The signals that are only logged.
abbrev p2p_signals : List Text
p2p_signals =
    codes "DeviceFound"
    ∷ codes "DeviceFoundProperties"
    ∷ codes "DeviceLost"
    ∷ codes "GONegotiationRequest"
    ∷ codes "GONegotiationSuccess"
    ∷ codes "GONegotiationFailure"
    ∷ codes "ProvisionDiscoveryResponseDisplayPin"
    ∷ codes "ProvisionDiscoveryRequestEnterPin"
    ∷ codes "ProvisionDiscoveryResponseEnterPin"
    ∷ codes "ProvisionDiscoveryPBCRequest"
    ∷ codes "ProvisionDiscoveryPBCResponse"
    ∷ codes "ProvisionDiscoveryFailure"
    ∷ codes "GroupFormationFailure"
    ∷ codes "InvitationResult"
    ∷ codes "GroupFinished"
    ∷ []

abbrev wps_signals : List Text
wps_signals = codes "Event" ∷ codes "Credentials" ∷ codes "PropertiesChanged" ∷ []

-- The loggers for some signals of an interface.
unfoldable pub loggers : Text → Text → List Text → List Receiver
loggers interface prefix [] = []
loggers interface prefix (name ∷ names) =
    receiver (logged (prefix ++ name)) interface name ∷ loggers interface prefix names

-- The calls of `add_signal_receiver` in `__init__`, in their order.
unfoldable pub receivers : List Receiver
unfolding loggers
receivers =
    receiver group_started p2p_device (codes "GroupStarted")
    ∷ receiver wps_failed p2p_device (codes "WpsFailed")
    ∷ receiver display_pin_request p2p_device (codes "ProvisionDiscoveryRequestDisplayPin")
    ∷ (loggers p2p_device [] p2p_signals
        ++ (loggers wps_interface (codes "WPS.") wps_signals
            ++ receiver station_authorized interface_of_wpas (codes "StaAuthorized")
              ∷ receiver (logged (codes "StaDeauthorized")) interface_of_wpas
                  (codes "StaDeauthorized")
              ∷ []))

abbrev started_call : Result P2pError GroupInfo × P2PGroupOwner → List Upcall × P2PGroupOwner
started_call (ok info, o) = (on_group_started info ∷ [], o)
started_call (err e, o) = ([], o)

abbrev pin_call : Text × P2PGroupOwner → List Upcall × P2PGroupOwner
pin_call (pin, o) = (on_display_pin_needed pin ∷ [], o)

-- A handler on the arguments of a signal: what it calls, and the owner it leaves. What it raises
-- ends in the main loop of D-Bus, arguments that do not fit included.
unfoldable pub run_handler : Bus → Handler → Args → P2PGroupOwner → List Upcall × P2PGroupOwner
unfolding handle_group_started handle_display_pin_request
run_handler bus group_started (properties p) o = started_call (handle_group_started bus p o)
run_handler bus wps_failed (word status) o = (on_wps_failed status ∷ [], o)
run_handler bus display_pin_request (peer_pin peer pin) o =
    pin_call (handle_display_pin_request bus pin o)
run_handler bus station_authorized (word mac) o = (on_station_authorized mac ∷ [], o)
run_handler bus _ _ o = ([], o)

abbrev fits : Signal → Receiver → Bool
fits s r = text_eq s.name r.name && text_eq s.interface r.interface

-- A signal is handed to each receiver that it fits, in their order.
unfoldable pub dispatch : Bus → List Receiver → Signal → P2PGroupOwner → List Upcall × P2PGroupOwner
unfolding run_handler text_eq
dispatch bus [] s o = ([], o)
dispatch bus (r ∷ rs) s o =
    let (calls, o1) = if fits s r then run_handler bus r.handler s.args o else ([], o) in
    let (later, o2) = dispatch bus rs s o1 in (calls ++ later, o2)
