-- ===== src/P2p/Credentials.antt =====
-- The network of the group in castd/p2p/dbus_go.py.
use miracast_device.Base.{◌≡◌, none, some, Text, arith}
use miracast_device.P2p.{
  Bus, P2PGroupOwner, existing_group_interface, GroupProperties, handle_group_started,
  get_group_credentials, read_group_credentials,
}

pub get_group_credentials_fresh :
    (at_start later : Bus) (o : P2PGroupOwner) (p : GroupProperties) (path : Text)
    → p.group_object ≡ some path
    → let started = (handle_group_started at_start p o).1 in
      (get_group_credentials later started).0 ≡ elim (read_group_credentials at_start path) [
        | some c ↦ some c
        | none ↦ (get_group_credentials later (record started { group_credentials = none })).0
      ]
unfolding handle_group_started get_group_credentials
get_group_credentials_fresh at_start later o p path h = ground arith

-- A lookup leaves what it found in the cache, and finds the same group interface afterwards.
pub get_group_credentials_keeps :
    (bus : Bus) (o : P2PGroupOwner)
    → let (c, o') = get_group_credentials bus o in
      (o'.group_credentials ≡ c)
      × (existing_group_interface bus o' ≡ existing_group_interface bus o)
unfolding get_group_credentials existing_group_interface
get_group_credentials_keeps bus o = ground arith
