-- ===== src/Startup/Success.antt =====
-- A start of castd/main.py that succeeds.
use miracast_device.Base.{◌≡◌, refl, ◌∙◌, ap, true, none, some, Text, ok, arith, codes}
use miracast_device.Process.{absent}
use miracast_device.Group
use miracast_device.Wfd.{to_dbus_byte_array}
use miracast_device.Wfd.Subelements.{build_wfd_ies_read}
use miracast_device.P2p
use miracast_device.P2p.{Bus, P2PGroupOwner}
use miracast_device.Session.{listener, listen_for_sources}
use miracast_device.Daemon.{on_screen, show_idle, uxplay_start}
use miracast_device.Startup.{
  Castd, World, Boot, ◌>>=◌, ◌>>◌, on_daemon, on_owner, create_owner, configure_owner, group_name,
  start_network, listen, ensure_group_services, take_credentials, create_uxplay, initial, start,
  env_or,
}
use miracast_device.Startup.Answers.{Answers, NamesNetwork}
use miracast_device.Startup.Ready.{IsReady, start-IsReady, Serves, ensure_group_services-Serves}
use miracast_device.Base.Utf8

-- The owner of a daemon under way: it has the interface, and has read nothing of a group.
record IsOwned (name : Text) (s : Castd) : Type 0 where
  owner : P2PGroupOwner
  owned : s.owner ≡ some owner
  named : owner.interface_name ≡ name
  no_path : owner.group_iface_path ≡ none
  unread : owner.group_credentials ≡ none
  screen_works : s.daemon.screen ≡ on_screen

-- A daemon under way: its owner is new, and its group has no services yet.
record Underway (name : Text) (s : Castd) : Type 0 where
  is_owned : IsOwned name s
  no_network : s.network ≡ record { dnsmasq = absent; interface_name = none }

-- A step succeeds, and something holds after it.
abbrev Succeeds : Boot (Unit {0}) → Castd → (Castd → Type 0) → Type 0
Succeeds m s P = ((m s).0 ≡ ok tt) × P (m s).1

chain :
    (m k : Boot (Unit {0})) (s : Castd) (P Q : Castd → Type 0)
    → Succeeds m s P
    → ((t : Castd) → P t → Succeeds k t Q)
    → Succeeds (m >> k) s Q
chain m k s P Q (e, p) f = rw e (f (m s).1 p)

module _ (w : World) (h : Answers w) where
  create_owner_ok :
      (s : Castd)
      → s.network ≡ record { dnsmasq = absent; interface_name = none }
      → s.daemon.screen ≡ on_screen
      → Succeeds (create_owner w) s (Underway (env_or w.p2p_interface))
  unfolding create_owner P2p.new
  create_owner_ok s e works =
      rw (h.objects P2p.wpas_opath, h.interface, h.objects h.path)
        (
          refl,
          record {
            is_owned = record {
              owner = _;
              owned = refl;
              named = refl;
              no_path = refl;
              unread = refl;
              screen_works = works;
            };
            no_network = e;
          },
        )

  configure_owner_ok :
      (name : Text) (s : Castd)
      → Underway name s
      → Succeeds (configure_owner w.bus) s (Underway name)
  unfolding configure_owner on_owner P2p.configure P2p.publish_wfd_ies
  configure_owner_ok name s u =
      let o = u.is_owned in
      let (bytes, _, built, _, _) = build_wfd_ies_read 7236 50 true (omega arith) (omega arith) in
      rw
        (
          o.owned,
          h.takes_name o.owner.device_name,
          h.takes_type P2p.primary_device_type,
          built,
          h.takes_ies (to_dbus_byte_array bytes),
        )
        (
          refl,
          record {
            is_owned = record {
              owner = record o.owner { wfd_ies = some (to_dbus_byte_array bytes) };
              owned = refl;
              named = o.named;
              no_path = o.no_path;
              unread = o.unread;
              screen_works = o.screen_works;
            };
            no_network = u.no_network;
          },
        )

  start_group_same : (o : P2PGroupOwner) → P2p.start_group w.bus o ≡ (ok tt, o)
  unfolding P2p.start_group
  start_group_same o = ground (arith, h.takes_group o.freq_mhz)

  start_group_ok :
      (name : Text) (s : Castd)
      → Underway name s
      → Succeeds (on_owner (P2p.start_group w.bus)) s (Underway name)
  unfolding on_owner
  start_group_ok name s u =
      let o = u.is_owned in
      rw (o.owned, start_group_same o.owner)
        (
          refl,
          record {
            is_owned = record {
              owner = o.owner;
              owned = refl;
              named = o.named;
              no_path = o.no_path;
              unread = o.unread;
              screen_works = o.screen_works;
            };
            no_network = u.no_network;
          },
        )

  -- The group has its name, and its services start.
  services_start :
      (s : Castd)
      → Underway (env_or w.p2p_interface) s
      → (group_name w.bus_later s ≡ (ok h.group, s))
        × ((ensure_group_services w.runs w.binds h.group s).0 ≡ ok tt)
  unfolding group_name ensure_group_services P2p.existing_group_interface start_network listen
      listen_for_sources Group.start Group.serves
  services_start s u = (
    rw (u.is_owned.owned, u.is_owned.named, h.listed, h.found) refl,
    ground (
      arith,
      u.no_network,
      h.commands (Group.build_ip_assign_command h.group),
      h.port_is_free (listener (codes "192.168.173.1") 7236 1),
    ),
  )

  -- The group is served, and its owner has read nothing of it.
  abbrev IsServed : Castd → Type 0
  IsServed t = IsOwned (env_or w.p2p_interface) t × Serves h.group t

  services_ok :
      (s : Castd)
      → Underway (env_or w.p2p_interface) s
      → Succeeds (ensure_group_services w.runs w.binds h.group) s IsServed
  services_ok s u =
      let m = ensure_group_services w.runs w.binds h.group in
      let e = (services_start s u).1 in
      let (serves, daemon, same) =
        ensure_group_services-Serves w.runs w.binds h.group s (m s).1 (λ i. (e i, (m s).1)) in
      let o = u.is_owned in
      (
        e,
        (
          record {
            owner = o.owner;
            owned = same ∙ o.owned;
            named = o.named;
            no_path = o.no_path;
            unread = o.unread;
            screen_works = ap (λ d. d.screen) daemon ∙ o.screen_works;
          },
          serves,
        ),
      )

  abbrev network : Text × Text
  network = (Utf8.decode h.ssid, h.passphrase)

  reads_network :
      (s : Castd)
      → (o : IsOwned (env_or w.p2p_interface) s)
      → (P2p.get_group_credentials w.bus_later o.owner).0 ≡ some network
  unfolding P2p.get_group_credentials P2p.read_group_credentials P2p.group_interface_object
      P2p.existing_group_interface
  reads_network s o =
      rw
        (
          o.unread,
          o.no_path,
          h.listed,
          o.named,
          h.found,
          h.later_interface,
          h.later_objects h.later_path,
          h.has_group,
          h.later_objects h.group_path,
          h.has_ssid,
          h.has_passphrase,
        )
        refl

  finish_ok :
      (s : Castd)
      → IsServed s
      → Succeeds
          (take_credentials w.bus_later
            >> (on_daemon (show_idle none) >> (on_daemon create_uxplay >> on_daemon uxplay_start)))
          s
          (NamesNetwork w.bus_later)
  unfolding take_credentials show_idle uxplay_start
  finish_ok s (o, serves) = (
    rw (o.owned, o.screen_works) refl,
    record {
      group = h.group;
      on_interface = rw (o.owned, o.screen_works) serves.on_interface;
      path = h.later_path;
      interface = h.later_interface;
      group_path = h.group_path;
      of_interface = h.has_group;
      ssid = h.ssid;
      has_ssid = h.has_ssid;
      passphrase = h.passphrase;
      has_passphrase = h.has_passphrase;
      footer = rw (o.owned, o.screen_works) (reads_network s o);
    },
  )

  after_group :
      (s : Castd)
      → Underway (env_or w.p2p_interface) s
      → Succeeds
          (do
            name ← group_name w.bus_later
            ensure_group_services w.runs w.binds name
            take_credentials w.bus_later
            on_daemon (show_idle none)
            on_daemon create_uxplay
            on_daemon uxplay_start)
          s
          (NamesNetwork w.bus_later)
  after_group s u = rw (services_start s u).0 (
      chain (ensure_group_services w.runs w.binds h.group) _ s IsServed (NamesNetwork w.bus_later)
        (services_ok s u) finish_ok)

-- In a world that answers, the start-up returns, the room is ready, and its screen names the network.
pub start_succeeds :
    (w : World)
    → Answers w
    → (t : Castd) × (start w initial ≡ (ok tt, t))
      × IsReady w.bus_later t
      × NamesNetwork w.bus_later t
unfolding start show_idle initial
start_succeeds w h =
    let name = env_or w.p2p_interface in
    let s₀ = (on_daemon (show_idle none) initial).1 in
    let (e₁, u₁) = create_owner_ok w h s₀ refl refl in
    let s₁ = (create_owner w s₀).1 in
    let (e₂, u₂) = configure_owner_ok w h name s₁ u₁ in
    let s₂ = (configure_owner w.bus s₁).1 in
    let (e₃, u₃) = start_group_ok w h name s₂ u₂ in
    let s₃ = (on_owner (P2p.start_group w.bus) s₂).1 in
    let (returned, names) : Succeeds (start w) initial (NamesNetwork w.bus_later) =
      rw (e₁, e₂, e₃) (after_group w h s₃ u₃) in
    let whole : start w initial ≡ (ok tt, (start w initial).1) =
      λ i. (returned i, (start w initial).1) in
    ((start w initial).1, whole, start-IsReady w (start w initial).1 whole, names)
