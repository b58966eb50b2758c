-- ===== src/P2p/Pairing.antt =====
-- Pairing in castd/p2p/dbus_go.py: the PIN on the screen and the PIN of the registrar.
use miracast_device.Base.{ℕ, ◌∷◌, ◌≢◌, ◌≡◌, Option, none, some, Text, arith, if◌then◌else◌, ◌&&◌}
use miracast_device.P2p.{
  Bus, P2PGroupOwner, handle_display_pin_request, handle_group_started, GroupProperties,
}

-- A registrar that takes the PIN on the interface of the path.
abbrev pub takes : Bus → Text → Text → Option (Text × Text) → Option (Text × Text)
takes bus path pin armed =
    if bus.has_object path && bus.wps_start path pin then some (path, pin) else armed

-- After a group has started, each PIN that wpa_supplicant generates is handed on to be displayed,
-- whatever the bus answers, and the registrar of that group's interface is armed with the same
-- PIN; where the bus refuses, the registrar keeps what it had.
pub pin_shown_and_armed :
    (at_start now : Bus) (o : P2PGroupOwner) (p : GroupProperties) (c : ℕ) (path : Text)
    (pin : Text)
    → p.interface_object ≡ some (c ∷ path)
    → p.group_object ≢ none
    → let started = (handle_group_started at_start p o).1 in
      let (shown, o') = handle_display_pin_request now pin started in
      (shown ≡ pin) × (o'.armed ≡ takes now (c ∷ path) pin o.armed)
unfolding handle_display_pin_request handle_group_started
pin_shown_and_armed at_start now o p c path pin h k = ground arith
