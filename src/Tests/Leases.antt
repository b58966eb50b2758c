-- ===== src/Tests/Leases.antt =====
-- A concrete lease file, and a concrete group network.
use miracast_device.Base.{
  ◌≡◌, refl, [], ◌∷◌, some, Text, map, codes, arith, lower_ascii, splitlines, is_space, split_words,
  words,
}
use miracast_device.Process.{exited}
use miracast_device.Group.{GroupNetwork, find_lease_ip, lease_in_line}
use miracast_device.Base.Words.{IsField}
use miracast_device.Group.Lease.{find_lease_ip_first}

abbrev old_network : GroupNetwork
old_network = record { dnsmasq = exited; interface_name = some (codes "p2p-wlan1-0") }

abbrev group : Text
group = codes "p2p-wlan1-1"

abbrev leases : Text
leases = codes "17 aa:01 10.0.0.5 pc *\n18 aa:02 10.0.0.6 tv *\n"

expiry-IsField : IsField (codes "18")
unfolding is_space
expiry-IsField = record { non_empty = ground arith; solid = ground arith }

leased-IsField : IsField (codes "aa:02")
unfolding is_space
leased-IsField = record { non_empty = ground arith; solid = ground arith }

ip-IsField : IsField (codes "10.0.0.6")
unfolding is_space
ip-IsField = record { non_empty = ground arith; solid = ground arith }

find_lease_ip_first_example :
    find_lease_ip (map lower_ascii) (codes "AA:02") (some leases) ≡ some (codes "10.0.0.6")
unfolding splitlines lease_in_line words split_words is_space
find_lease_ip_first_example =
    find_lease_ip_first (map lower_ascii) (codes "AA:02") (codes "18") (codes "aa:02")
      (codes "10.0.0.6") (codes "tv *") leases (codes "17 aa:01 10.0.0.5 pc *" ∷ []) [] refl
      (refl, tt) expiry-IsField leased-IsField ip-IsField refl
