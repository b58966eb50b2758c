-- ===== src/Startup/Regroup.antt =====
-- A group that wpa_supplicant creates anew, from its signal in castd/p2p/dbus_go.py to the screen of
-- castd/main.py.
use miracast_device.Base.{◌≡◌, refl, ap, ◌∙◌, Bool, List, Option, none, some, Text, ok, arith}
use miracast_device.P2p.{
  Bus, P2PGroupOwner, GroupProperties, handle_group_started, read_group_credentials,
  existing_group_interface, get_group_credentials,
}
use miracast_device.P2p.Credentials.{get_group_credentials_fresh}
use miracast_device.Daemon.{Screen, on_screen, show_idle}
use miracast_device.Session.{Listener}
use miracast_device.Startup.{
  Castd, Boot, ◌>>◌, on_daemon, ensure_group_services, take_credentials, on_group_started,
}
use miracast_device.Startup.Ready.{after, Serves, ensure_group_services-Serves}

-- What wpa_supplicant's signal leaves to the callback.
abbrev pub signalled : Bus → GroupProperties → P2PGroupOwner → Castd → Castd
signalled bus p o s = record s { owner = some (handle_group_started bus p o).1 }

-- The new value where the idle screen has been painted, the old one where it has not.
abbrev pub if_painted {ℓ} : {A : Type ℓ} → Screen → A → A → A
if_painted on_screen new old = new
if_painted _ new old = old

-- The room after the callback.
pub record IsRegrouped (name : Text) (credentials : Option (Text × Text)) (s t : Castd)
    : Type 0 where
  pub serves : Serves name t
  pub no_pin : t.daemon.painted ≡ if_painted s.daemon.screen none s.daemon.painted
  pub footer : t.daemon.footer ≡ if_painted s.daemon.screen credentials s.daemon.footer
  pub same_holder : t.daemon.arbiter ≡ s.daemon.arbiter

same_interface :
    (at_start later : Bus) (p : GroupProperties) (o : P2PGroupOwner)
    → existing_group_interface later (handle_group_started at_start p o).1
      ≡ existing_group_interface later o
unfolding existing_group_interface handle_group_started
same_interface at_start later p o = ground arith

fresh :
    (at_start later : Bus) (o : P2PGroupOwner) (p : GroupProperties) (path : Text) (c : Text × Text)
    → p.group_object ≡ some path
    → read_group_credentials at_start path ≡ some c
    → (get_group_credentials later (handle_group_started at_start p o).1).0 ≡ some c
fresh at_start later o p path c h k =
    get_group_credentials_fresh at_start later o p path h ∙ rw k refl

repaint : Bus → Boot (Unit {0})
repaint bus = do take_credentials bus; on_daemon (show_idle none)

repaint_lem :
    (bus : Bus) (o : P2PGroupOwner) (c : Text × Text) (name : Text) (s t : Castd)
    → repaint bus s ≡ (ok tt, t)
    → s.owner ≡ some o
    → (get_group_credentials bus o).0 ≡ some c
    → Serves name s
    → IsRegrouped name (some c) s t
unfolding repaint take_credentials show_idle
repaint_lem bus o c name s t h owned read serves = record {
  serves = record {
    dhcp = ground (arith, h, serves.dhcp);
    on_interface = ground (arith, h, serves.on_interface);
    listens = ground (arith, h, serves.listens);
  };
  no_pin = ground (arith, h);
  footer = ground (arith, h, owned, read);
  same_holder = ground (arith, h);
}

-- When a new group has started whose credentials can be read, its owner has a p2p interface, and its
-- callback returns, the DHCP server runs on that interface and the control port is listened on, the
-- holder of the display is the same, and the screen names the network that was read from the new
-- group, whatever was known of the one before it, and shows no PIN. If the painting has failed, which
-- is caught, the screen is what it was.
pub group_started_shown :
    (at_start later : Bus) (p : GroupProperties) (runs : List Text → Bool) (binds : Listener → Bool)
    (o : P2PGroupOwner) (s t : Castd) (path name : Text) (c : Text × Text)
    → p.group_object ≡ some path
    → read_group_credentials at_start path ≡ some c
    → existing_group_interface later o ≡ some name
    → on_group_started runs binds later (signalled at_start p o s) ≡ (ok tt, t)
    → IsRegrouped name (some c) s t
unfolding on_group_started repaint
group_started_shown at_start later p runs binds o s t path name c grouped read found =
    rw (same_interface at_start later p o, found)
      λ h.
        after (ensure_group_services runs binds name) _ (signalled at_start p o s) tt t
          (λ _ u e rest.
            let (serves, same, owned) =
              ensure_group_services-Serves runs binds name (signalled at_start p o s) u e in
            let r =
              repaint_lem later (handle_group_started at_start p o).1 c name u t rest owned
                (fresh at_start later o p path c grouped read) serves in
            record {
              serves = r.serves;
              no_pin = r.no_pin ∙ ap (λ d. if_painted d.screen none d.painted) same;
              footer = r.footer ∙ ap (λ d. if_painted d.screen (some c) d.footer) same;
              same_holder = r.same_holder ∙ ap (λ d. d.arbiter) same;
            })
          h
