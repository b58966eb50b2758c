-- ===== src/P2p/Signals/Routes.antt =====
-- Which handler of castd/p2p/dbus_go.py a signal reaches.
use mathlib.Core.List.{append-nil}
use mathlib.Core.Path.{subst}
use miracast_device.Base.{
  ◌≡◌, refl, sym, ap, ◌∙◌, Bool, true, false, ◌&&◌, List, [], ◌∷◌, ◌++◌, all, not, Option, none,
  some, Text, codes, text_eq, text_eq_iff, if◌then◌else◌, Bool-cases, inl, inr, arith,
}
use miracast_device.P2p.{Bus, P2PGroupOwner}
use miracast_device.P2p.Signals.{
  Args, Signal, Handler, group_started, wps_failed, display_pin_request, station_authorized, logged,
  Upcall, Receiver, receiver, p2p_device, wps_interface, interface_of_wpas, p2p_signals,
  wps_signals, loggers, receivers, run_handler, dispatch, fits,
}

-- Which handler a signal is for.
abbrev pub route : Text → Text → Option Handler
route interface name =
    if text_eq name (codes "GroupStarted") && text_eq interface p2p_device
    then some group_started
    else if text_eq name (codes "WpsFailed") && text_eq interface p2p_device
    then some wps_failed
    else if text_eq name (codes "ProvisionDiscoveryRequestDisplayPin")
        && text_eq interface p2p_device
    then some display_pin_request
    else if text_eq name (codes "StaAuthorized") && text_eq interface interface_of_wpas
    then some station_authorized
    else none

abbrev pub routed : Bus → Option Handler → Args → P2PGroupOwner → List Upcall × P2PGroupOwner
routed bus none args o = ([], o)
routed bus (some h) args o = run_handler bus h args o

abbrev signal : Text → Text → Args → Signal
signal i n args = record { interface = i; name = n; args = args }

started_routes :
    (bus : Bus) (i : Text) (args : Args) (o : P2PGroupOwner)
    → dispatch bus receivers (signal i (codes "GroupStarted") args) o
      ≡ routed bus (route i (codes "GroupStarted")) args o
unfolding dispatch receivers text_eq loggers
started_routes bus i args o = elim (Bool-cases (text_eq i p2p_device)) [
  | inl e ↦ rw (e, append-nil) refl
  | inr e ↦ rw e refl
]

failed_routes :
    (bus : Bus) (i : Text) (args : Args) (o : P2PGroupOwner)
    → dispatch bus receivers (signal i (codes "WpsFailed") args) o
      ≡ routed bus (route i (codes "WpsFailed")) args o
unfolding dispatch receivers text_eq loggers
failed_routes bus i args o = elim (Bool-cases (text_eq i p2p_device)) [
  | inl e ↦ rw (e, append-nil) refl
  | inr e ↦ rw e refl
]

pin_routes :
    (bus : Bus) (i : Text) (args : Args) (o : P2PGroupOwner)
    → dispatch bus receivers (signal i (codes "ProvisionDiscoveryRequestDisplayPin") args) o
      ≡ routed bus (route i (codes "ProvisionDiscoveryRequestDisplayPin")) args o
unfolding dispatch receivers text_eq loggers
pin_routes bus i args o = elim (Bool-cases (text_eq i p2p_device)) [
  | inl e ↦ rw (e, append-nil) refl
  | inr e ↦ rw e refl
]

-- Receivers that do nothing for a signal: loggers, and those that it does not fit.
abbrev is_silent : Signal → Receiver → Bool
is_silent s r = elim r.handler [ logged n ↦ true | _ ↦ not (fits s r) ]

silent_one :
    (bus : Bus) (s : Signal) (r : Receiver) (o : P2PGroupOwner)
    → is_silent s r ≡ true
    → (if fits s r then run_handler bus r.handler s.args o else ([], o)) ≡ ([], o)
unfolding run_handler
silent_one bus s r o h = ground (arith, h)

silent_all :
    (bus : Bus) (rs : List Receiver) (s : Signal) (o : P2PGroupOwner)
    → all (is_silent s) rs ≡ true
    → dispatch bus rs s o ≡ ([], o)
unfolding dispatch
silent_all bus [] s o h = refl
silent_all bus (r ∷ rs) s o h =
    rw (silent_one bus s r o (ground (arith, h)), silent_all bus rs s o (ground (arith, h))) refl

silent_then :
    (bus : Bus) (rs rest : List Receiver) (s : Signal) (o : P2PGroupOwner)
    → all (is_silent s) rs ≡ true
    → dispatch bus (rs ++ rest) s o ≡ dispatch bus rest s o
unfolding dispatch
silent_then bus [] rest s o h = refl
silent_then bus (r ∷ rs) rest s o h =
    rw (silent_one bus s r o (ground (arith, h)), silent_then bus rs rest s o (ground (arith, h)))
      refl

-- The receivers before those of the stations.
abbrev of_p2p : List Receiver
of_p2p =
    receiver group_started p2p_device (codes "GroupStarted")
    ∷ receiver wps_failed p2p_device (codes "WpsFailed")
    ∷ receiver display_pin_request p2p_device (codes "ProvisionDiscoveryRequestDisplayPin")
    ∷ (loggers p2p_device [] p2p_signals ++ loggers wps_interface (codes "WPS.") wps_signals)

abbrev of_stations : List Receiver
of_stations =
    receiver station_authorized interface_of_wpas (codes "StaAuthorized")
    ∷ receiver (logged (codes "StaDeauthorized")) interface_of_wpas (codes "StaDeauthorized")
    ∷ []

receivers-append : receivers ≡ of_p2p ++ of_stations
unfolding receivers loggers
receivers-append = refl

stations_route :
    (bus : Bus) (i : Text) (args : Args) (o : P2PGroupOwner)
    → dispatch bus of_stations (signal i (codes "StaAuthorized") args) o
      ≡ routed bus (route i (codes "StaAuthorized")) args o
unfolding dispatch text_eq
stations_route bus i args o = elim (Bool-cases (text_eq i interface_of_wpas)) [
  | inl e ↦ rw (e, append-nil) refl
  | inr e ↦ rw e refl
]

authorized_routes :
    (bus : Bus) (i : Text) (args : Args) (o : P2PGroupOwner)
    → dispatch bus receivers (signal i (codes "StaAuthorized") args) o
      ≡ routed bus (route i (codes "StaAuthorized")) args o
authorized_routes bus i args o =
    ap (λ rs. dispatch bus rs (signal i (codes "StaAuthorized") args) o) receivers-append
    ∙ silent_then bus of_p2p of_stations (signal i (codes "StaAuthorized") args) o
        (unfold loggers text_eq in refl)
    ∙ stations_route bus i args o

other_routes :
    (bus : Bus) (i n : Text) (args : Args) (o : P2PGroupOwner)
    → text_eq n (codes "GroupStarted") ≡ false
    → text_eq n (codes "WpsFailed") ≡ false
    → text_eq n (codes "ProvisionDiscoveryRequestDisplayPin") ≡ false
    → text_eq n (codes "StaAuthorized") ≡ false
    → dispatch bus receivers (signal i n args) o ≡ routed bus (route i n) args o
other_routes bus i n args o a b c d =
    silent_all bus receivers (signal i n args) o (unfold receivers loggers in rw (a, b, c, d) refl)
    ∙ rw (a, b, c, d) refl

at_name :
    (bus : Bus) (i n : Text) (args : Args) (o : P2PGroupOwner) (name : Text)
    → dispatch bus receivers (signal i name args) o ≡ routed bus (route i name) args o
    → text_eq n name ≡ true
    → dispatch bus receivers (signal i n args) o ≡ routed bus (route i n) args o
at_name bus i n args o name h e =
    subst (λ m. dispatch bus receivers (signal i m args) o ≡ routed bus (route i m) args o)
      (sym ((text_eq_iff n name).0 e)) h

-- Each signal goes to one handler at most: whatever its interface, name and arguments, the
-- receivers together do what one of the four handlers does for `GroupStarted`,
-- `WpsFailed`, `ProvisionDiscoveryRequestDisplayPin` or `StaAuthorized` of the right interface, and
-- for any other signal they call nothing and leave the group owner as it was.
pub dispatch_routes :
    (bus : Bus) (s : Signal) (o : P2PGroupOwner)
    → dispatch bus receivers s o ≡ routed bus (route s.interface s.name) s.args o
dispatch_routes bus s o =
    let at = at_name bus s.interface s.name s.args o in
    elim (Bool-cases (text_eq s.name (codes "GroupStarted"))) [
      | inl e ↦ at _ (started_routes bus s.interface s.args o) e
      | inr a ↦ elim (Bool-cases (text_eq s.name (codes "WpsFailed"))) [
        | inl e ↦ at _ (failed_routes bus s.interface s.args o) e
        | inr b ↦ elim (Bool-cases (text_eq s.name (codes "ProvisionDiscoveryRequestDisplayPin"))) [
          | inl e ↦ at _ (pin_routes bus s.interface s.args o) e
          | inr c ↦ elim (Bool-cases (text_eq s.name (codes "StaAuthorized"))) [
            | inl e ↦ at _ (authorized_routes bus s.interface s.args o) e
            | inr d ↦ other_routes bus s.interface s.name s.args o a b c d
          ]
        ]
      ]
    ]
