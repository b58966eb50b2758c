-- ===== src/Startup.antt =====
-- castd/main.py: from the start of the daemon to a room that serves, and the way of a station that
-- joins the group to a session.
pub mod Ready
pub mod Station
pub mod Arrivals
pub mod Answers
pub mod Success
pub mod Main
pub mod Regroup
pub use miracast_device.Base.Steps.{◌>>=◌, ◌>>◌}
use miracast_device.Base.{
  ℕ, Bool, true, false, List, [], ◌∷◌, Option, none, some, Text, Result, ok, err, if◌then◌else◌,
  codes,
}
use miracast_device.Arbiter.{idle}
use miracast_device.Process.{absent}
use miracast_device.Group
use miracast_device.Group.{GroupNetwork, StartError}
use miracast_device.P2p
use miracast_device.P2p.{Bus, P2p, P2pError, P2PGroupOwner}
use miracast_device.Rtsp.{Raised, WfdCapabilities}
use miracast_device.Session
use miracast_device.Session.{Channel, Listener}
use miracast_device.Daemon
use miracast_device.Daemon.{
  Daemon, Fault, Act, on_screen, is_miracast, show_idle, uxplay_start, run_source_session,
}

pub data StartFault : Type 0 where
  p2p_failed : P2pError → StartFault
  network_failed : StartError → StartFault
  daemon_failed : Fault → StartFault
  listen_failed : Raised → StartFault
  no_group_interface no_owner : StartFault

-- `CastDaemon` with the parts that its start-up creates. The accept loop runs when
-- `rtsp_listener` is set.
pub record Castd : Type 0 where
  pub daemon : Daemon
  pub owner : Option P2PGroupOwner
  pub network : GroupNetwork
  pub rtsp_listener : Option Listener

-- What the start-up finds: the configuration, the environment, the bus before the group is there
-- and after, which commands succeed, and whether the control port can be listened on.
pub record World : Type 0 where
  pub device_name : Text
  pub freq_mhz : ℕ
  pub p2p_interface : Option Text
  pub bus : Bus
  pub bus_later : Bus
  pub runs : List Text → Bool
  pub binds : Listener → Bool

abbrev pub Boot {ℓ} : Type ℓ → Type ℓ
Boot A = Castd → Result StartFault A × Castd

abbrev daemon_result {ℓ} : {A : Type ℓ} → Result Fault A → Result StartFault A
daemon_result (ok a) = ok a
daemon_result (err e) = err (daemon_failed e)

abbrev pub on_daemon {ℓ} : {A : Type ℓ} → Act A → Boot A
on_daemon m s = let (r, d) = m s.daemon in (daemon_result r, record s { daemon = d })

abbrev p2p_result {ℓ} : {A : Type ℓ} → Result P2pError A → Result StartFault A
p2p_result (ok a) = ok a
p2p_result (err e) = err (p2p_failed e)

unfoldable pub on_owner : P2p (Unit {0}) → Boot (Unit {0})
on_owner m s = elim s.owner [
  | none ↦ (err no_owner, s)
  | some o ↦ let (r, o') = m o in (p2p_result r, record s { owner = some o' })
]

-- `CastDaemon.__init__`, in surroundings that show the idle screen and take what is announced.
unfoldable pub initial : Castd
initial = record {
  daemon = record {
    arbiter = idle;
    render = record { child = absent; first_frame_seen = false };
    uxplay = none;
    health = idle;
    published = false;
    painted = none;
    footer = none;
    credentials = none;
    control_sock = false;
    render_pipeline_expected = false;
    screen = on_screen;
    takes_ies = true;
  };
  owner = none;
  network = record { dnsmasq = absent; interface_name = none };
  rtsp_listener = none;
}

abbrev env_or : Option Text → Text
env_or none = codes "wlan1"
env_or (some name) = name

abbrev with_owner : Result P2pError P2PGroupOwner → Boot (Unit {0})
with_owner (err e) s = (err (p2p_failed e), s)
with_owner (ok o) s = (ok tt, record s { owner = some o })

unfoldable pub create_owner : World → Boot (Unit {0})
create_owner w = with_owner (
    P2p.new w.bus (env_or w.p2p_interface) w.device_name w.freq_mhz
      (codes "/etc/wpa_supplicant/wpa_p2p.conf"))

-- `configure`, after which the sink is announced as free.
unfoldable pub configure_owner : Bus → Boot (Unit {0})
unfolding on_owner
configure_owner bus = do
  on_owner (P2p.configure bus)
  λ s. (ok tt, record s { daemon = record s.daemon { published = true } })

abbrev group_name_of : Bus → Option P2PGroupOwner → Option Text
group_name_of bus none = none
group_name_of bus (some o) = P2p.existing_group_interface bus o

abbrev named_or_raise : Option Text → Result StartFault Text
named_or_raise none = err no_group_interface
named_or_raise (some name) = ok name

unfoldable pub group_name : Bus → Boot Text
group_name bus s = (named_or_raise (group_name_of bus s.owner), s)

abbrev network_result {ℓ} : {A : Type ℓ} → Result StartError A → Result StartFault (Unit {0})
network_result (ok a) = ok tt
network_result (err e) = err (network_failed e)

unfoldable pub start_network : (List Text → Bool) → Text → Boot (Unit {0})
start_network runs name s =
    let (r, g) = Group.start runs name s.network in (network_result r, record s { network = g })

abbrev keep_listener : Result Raised Listener → Boot (Unit {0})
keep_listener (ok sock) s = (ok tt, record s { rtsp_listener = some sock })
keep_listener (err e) s = (err (listen_failed e), s)

unfoldable pub listen : (Listener → Bool) → Boot (Unit {0})
unfolding Session.listen_for_sources
listen binds s = elim s.rtsp_listener [
  | some sock ↦ (ok tt, s)
  | none ↦ keep_listener (Session.listen_for_sources binds (codes "192.168.173.1") 7236 1) s
]

-- `_ensure_group_services`.
unfoldable pub ensure_group_services :
    (List Text → Bool) → (Listener → Bool) → Text → Boot (Unit {0})
unfolding start_network listen
ensure_group_services runs binds name = do start_network runs name; listen binds

abbrev keep_credentials : Option P2PGroupOwner → Bus → Castd → Castd
keep_credentials none bus s = s
keep_credentials (some o) bus s =
    let (c, o') = P2p.get_group_credentials bus o in
    record s { owner = some o'; daemon = record s.daemon { credentials = c } }

-- `self._wifi_credentials = self.p2p.get_group_credentials()`.
unfoldable pub take_credentials : Bus → Boot (Unit {0})
take_credentials bus s = (ok tt, keep_credentials s.owner bus s)

abbrev create_uxplay : Act (Unit {0})
create_uxplay d =
    (ok tt, record d { uxplay = some (record { child = absent; expect_exit = false }) })

-- `start`, without its threads and its message to systemd.
unfoldable pub start : World → Boot (Unit {0})
unfolding create_owner configure_owner group_name ensure_group_services take_credentials
start w = do
  on_daemon (show_idle none)
  create_owner w
  configure_owner w.bus
  on_owner (P2p.start_group w.bus)
  name ← group_name w.bus_later
  ensure_group_services w.runs w.binds name
  take_credentials w.bus_later
  on_daemon (show_idle none)
  on_daemon create_uxplay
  on_daemon uxplay_start

abbrev serve_group : (List Text → Bool) → (Listener → Bool) → Bus → Option Text → Boot (Unit {0})
serve_group runs binds bus none s = (ok tt, s)
serve_group runs binds bus (some name) s =
    (do ensure_group_services runs binds name; take_credentials bus; on_daemon (show_idle none)) s

-- `_on_group_started`.
unfoldable pub on_group_started : (List Text → Bool) → (Listener → Bool) → Bus → Boot (Unit {0})
unfolding ensure_group_services take_credentials
on_group_started runs binds bus s = serve_group runs binds bus (group_name_of bus s.owner) s

-- The polls of the lease file before the deadline: the first address that is not empty.
unfoldable pub first_lease : List (Option Text) → Option Text
first_lease [] = none
first_lease (none ∷ polls) = first_lease polls
first_lease (some [] ∷ polls) = first_lease polls
first_lease (some (c ∷ cs) ∷ polls) = some (c ∷ cs)

-- `_connect_to_authorized_source`: `polls` is what the lookups until the deadline give, `connects`
-- which of the ten attempts to dial succeed, and `channels` the socket of each.
unfoldable pub connect_to_authorized_source :
    (ℕ → Bool)
    → WfdCapabilities
    → ℕ
    → List (Option Text)
    → (ℕ → Bool)
    → (ℕ → Channel)
    → Act (Unit {0})
unfolding run_source_session
connect_to_authorized_source is_word capabilities fuel polls connects channels d =
    if is_miracast d.arbiter then (ok tt, d) else elim (first_lease polls) [
      | none ↦ (ok tt, d)
      | some ip ↦ elim (Session.open_control_connection 10 connects) [
        | err e ↦ (ok tt, d)
        | ok k ↦ run_source_session is_word capabilities fuel ip (channels k) d
      ]
    ]
