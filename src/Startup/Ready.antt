-- ===== src/Startup/Ready.antt =====
-- A start of castd/main.py that does not raise ends in a room that is ready.
use miracast_device.Base.{
  ◌≡◌, refl, sym, ap, ◌∙◌, Bool, true, false, List, Option, none, some, Text, ok, Result-cases, inl,
  inr, arith,
}
use miracast_device.Arbiter.{idle}
use miracast_device.Process.{alive}
use miracast_device.Group
use miracast_device.Group.Service.{started}
use miracast_device.P2p
use miracast_device.P2p.{Bus, P2p, P2PGroupOwner}
use miracast_device.P2p.Credentials.{get_group_credentials_keeps}
use miracast_device.Session.{Listener, listen_for_sources}
use miracast_device.Daemon.{Daemon, on_screen, show_idle, uxplay_start}
use miracast_device.Daemon.Consistent.{IsConsistent}
use miracast_device.Startup.{
  Castd, World, Boot, ◌>>=◌, ◌>>◌, on_daemon, on_owner, create_owner, configure_owner, group_name,
  start_network, listen, ensure_group_services, take_credentials, group_name_of, create_uxplay,
  initial, start,
}

pub after :
    {A B P : Type 0} (m : Boot A) (f : A → Boot B) (s : Castd) (b : B) (t : Castd)
    → ((a : A) (u : Castd) → m s ≡ (ok a, u) → f a u ≡ (ok b, t) → P)
    → (m >>= f) s ≡ (ok b, t)
    → P
after m f s b t k e = elim (Result-cases (m s).0) [
  | inl (a, h) ↦ k a (m s).1 (λ i. (h i, (m s).1)) (rw h at e)
  | inr (y, h) ↦ cc (ap (λ p. p.0) (rw h at e))
]

create_owner_keeps : (w : World) (s t : Castd) → create_owner w s ≡ (ok tt, t) → t.daemon ≡ s.daemon
unfolding create_owner
create_owner_keeps w s t h = ground arith

on_owner_keeps :
    (m : P2p (Unit {0})) (s t : Castd) → on_owner m s ≡ (ok tt, t) → t.daemon ≡ s.daemon
unfolding on_owner
on_owner_keeps m s t h = ground arith

configure_owner_publishes :
    (bus : Bus) (s t : Castd)
    → configure_owner bus s ≡ (ok tt, t)
    → t.daemon ≡ record s.daemon { published = true }
unfolding configure_owner
configure_owner_publishes bus s t h =
    after (on_owner (P2p.configure bus)) _ s tt t
      (λ a u k l. ground (arith, l, on_owner_keeps (P2p.configure bus) s u k)) h

group_name_lem :
    (bus : Bus) (s t : Castd) (name : Text)
    → group_name bus s ≡ (ok name, t)
    → (t ≡ s) × (group_name_of bus s.owner ≡ some name)
unfolding group_name
group_name_lem bus s t name h = ground arith

abbrev pub is_listening : Option Listener → Bool
is_listening none = false
is_listening (some sock) = true

-- The DHCP server runs on the interface, and the control port is listened on.
pub record Serves (name : Text) (t : Castd) : Type 0 where
  pub dhcp : t.network.dnsmasq ≡ alive
  pub on_interface : t.network.interface_name ≡ some name
  pub listens : is_listening t.rtsp_listener ≡ true

start_network_lem :
    (runs : List Text → Bool) (name : Text) (s t : Castd)
    → start_network runs name s ≡ (ok tt, t)
    → (t.network.dnsmasq ≡ alive)
      × (t.network.interface_name ≡ some name)
      × (t.daemon ≡ s.daemon)
      × (t.owner ≡ s.owner)
unfolding start_network
start_network_lem runs name s t h = elim (Result-cases (Group.start runs name s.network).0) [
  | inl (commands, e) ↦
      let (up, on) = started runs name s.network commands e in ground (arith, h, e, up, on)
  | inr (y, e) ↦ ground (arith, h, e)
]

pub ensure_group_services-Serves :
    (runs : List Text → Bool) (binds : Listener → Bool) (name : Text) (s t : Castd)
    → ensure_group_services runs binds name s ≡ (ok tt, t)
    → Serves name t × (t.daemon ≡ s.daemon) × (t.owner ≡ s.owner)
unfolding ensure_group_services
ensure_group_services-Serves runs binds name s t h =
    after (start_network runs name) _ s tt t
      (λ a u k l.
        let n = start_network_lem runs name s u k in
        unfold listen listen_for_sources in ground (arith, l, n.0, n.1, n.2, n.3))
      h

-- The group's interface, and the network that the daemon has of it.
pub record Knows (bus : Bus) (name : Text) (t : Castd) : Type 0 where
  pub owner : P2PGroupOwner
  pub owns : t.owner ≡ some owner
  pub on_group : P2p.existing_group_interface bus owner ≡ some name
  pub credentials : t.daemon.credentials ≡ owner.group_credentials

owner_of :
    (bus : Bus) (name : Text) (x : Option P2PGroupOwner)
    → group_name_of bus x ≡ some name
    → (o : P2PGroupOwner) × (x ≡ some o) × (P2p.existing_group_interface bus o ≡ some name)
owner_of bus name none e = cc
owner_of bus name (some o) e = (o, refl, e)

pub take_credentials_lem :
    (bus : Bus) (o : P2PGroupOwner) (s t : Castd) (name : Text)
    → take_credentials bus s ≡ (ok tt, t)
    → Serves name s
    → s.owner ≡ some o
    → P2p.existing_group_interface bus o ≡ some name
    → Serves name t
      × (t.daemon ≡ record s.daemon { credentials = t.daemon.credentials })
      × Knows bus name t
unfolding take_credentials
take_credentials_lem bus o s t name h k e f =
    let (same, on) = get_group_credentials_keeps bus o in
    let o' = (P2p.get_group_credentials bus o).1 in
    (
      ground (arith, h, k.dhcp, k.on_interface, k.listens, e),
      ground (arith, h, e),
      record {
        owner = o';
        owns = ground (arith, h, e);
        on_group = on ∙ f;
        credentials = ground (arith, h, e, same);
      },
    )

-- The room after the start-up.
pub record IsReady (bus : Bus) (t : Castd) : Type 0 where
  pub consistent : IsConsistent t.daemon
  pub nobody : t.daemon.arbiter ≡ idle
  pub group : Text
  pub serves : Serves group t
  pub knows : Knows bus group t
  pub no_pin : t.daemon.painted ≡ none
  pub footer : t.daemon.footer ≡ t.daemon.credentials

-- A daemon that has been configured, before its screen is painted again.
record IsConfigured (d : Daemon) : Type 0 where
  unheld : d.arbiter ≡ idle
  unheld_health : d.health ≡ idle
  announced : d.published ≡ true
  screen_works : d.screen ≡ on_screen
  bus_takes : d.takes_ies ≡ true

finish : Boot (Unit {0})
finish = do on_daemon (show_idle none); on_daemon create_uxplay; on_daemon uxplay_start

finish-IsReady :
    (bus : Bus) (name : Text) (s t : Castd)
    → finish s ≡ (ok tt, t)
    → IsConfigured s.daemon
    → Serves name s
    → Knows bus name s
    → IsReady bus t
unfolding finish show_idle uxplay_start
finish-IsReady bus name s t h c v k =
    let e : t ≡ (finish s).1 = sym (ap (λ p. p.1) h) in
    rw e (record {
      consistent = record {
        airplay_open = rw (c.screen_works, c.unheld) refl;
        discovery = rw (c.screen_works, c.announced, c.unheld) refl;
        reported = rw (c.screen_works, c.unheld_health, c.unheld) refl;
        screen_works = rw (c.screen_works) refl;
        bus_takes = rw (c.screen_works) c.bus_takes;
      };
      nobody = rw (c.screen_works) c.unheld;
      group = name;
      serves = record {
        dhcp = rw (c.screen_works) v.dhcp;
        on_interface = rw (c.screen_works) v.on_interface;
        listens = rw (c.screen_works) v.listens;
      };
      knows = record {
        owner = k.owner;
        owns = rw (c.screen_works) k.owns;
        on_group = k.on_group;
        credentials = rw (c.screen_works) k.credentials;
      };
      no_pin = rw (c.screen_works) refl;
      footer = rw (c.screen_works) refl;
    })

-- A daemon that nothing has happened to.
abbrev IsFresh : Daemon → Type 0
IsFresh d = (d.arbiter ≡ idle) × (d.health ≡ idle) × (d.screen ≡ on_screen) × (d.takes_ies ≡ true)

first_painted : (s : Castd) → on_daemon (show_idle none) initial ≡ (ok tt, s) → IsFresh s.daemon
unfolding show_idle initial
first_painted s h = ground (arith, h)

configured :
    (a b c d : Daemon) (x : Option (Text × Text))
    → IsFresh a
    → b ≡ a
    → c ≡ record b { published = true }
    → d ≡ record c { credentials = x }
    → IsConfigured d
configured a b c d x h p q r = ground (arith, p, q, r)

-- A start-up that returns, whatever the bus, the environment and the commands have answered, ends
-- with nobody presenting and a consistent daemon, the DHCP server on the interface of the group
-- and the control port listened on, and the screen painted without a PIN and with the network that
-- the group owner has read.
pub start-IsReady : (w : World) (t : Castd) → start w initial ≡ (ok tt, t) → IsReady w.bus_later t
unfolding start show_idle finish
start-IsReady w t = after (on_daemon (show_idle none)) _ initial tt t λ _ s₁ e₁.
    after (create_owner w) _ s₁ tt t λ _ s₂ e₂. after (configure_owner w.bus) _ s₂ tt t λ _ s₃ e₃.
      after (on_owner (P2p.start_group w.bus)) _ s₃ tt t λ _ s₄ e₄.
        after (group_name w.bus_later) _ s₄ tt t λ name s₅ e₅.
          after (ensure_group_services w.runs w.binds name) _ s₅ tt t λ _ s₆ e₆.
            after (take_credentials w.bus_later) _ s₆ tt t λ _ s₇ e₇ rest.
              let (same, named) = group_name_lem w.bus_later s₄ s₅ name e₅ in
              let (o, owned, on) = owner_of w.bus_later name s₄.owner named in
              let (serves, d₆, o₆) = ensure_group_services-Serves w.runs w.binds name s₅ s₆ e₆ in
              let (serves', d₇, knows) =
                take_credentials_lem w.bus_later o s₆ s₇ name e₇ serves
                  (o₆ ∙ ap (λ s. s.owner) same ∙ owned) on in
              let d₃ = configure_owner_publishes w.bus s₂ s₃ e₃ in
              let d₅ = ap (λ s. s.daemon) same ∙ on_owner_keeps (P2p.start_group w.bus) s₃ s₄ e₄ in
              finish-IsReady w.bus_later name s₇ t rest
                (configured s₁.daemon s₂.daemon s₆.daemon s₇.daemon _ (first_painted s₁ e₁)
                  (create_owner_keeps w s₁ s₂ e₂) (d₆ ∙ d₅ ∙ d₃) d₇)
                serves' knows
