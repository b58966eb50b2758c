-- ===== src/Group.antt =====
-- castd/p2p/group_network.py: the address and the DHCP server of the group, and its leases.
pub mod Lease
pub mod Service
use miracast_device.Base.{
  ℕ, Bool, true, false, ◌&&◌, List, [], ◌∷◌, ◌++◌, Option, none, some, Text, Result, ok, err,
  if◌then◌else◌, codes, text_eq, is_space, splitlines, words,
}
use miracast_device.Process.{Child, absent, alive, is_running}

unfoldable pub build_ip_assign_command : Text → List Text
build_ip_assign_command interface_name =
    codes "ip"
    ∷ codes "addr"
    ∷ codes "replace"
    ∷ codes "192.168.173.1/24"
    ∷ codes "dev"
    ∷ interface_name
    ∷ []

unfoldable pub build_dnsmasq_command : Text → List Text
build_dnsmasq_command interface_name =
    codes "dnsmasq"
    ∷ codes "--keep-in-foreground"
    ∷ codes "--conf-file=/dev/null"
    ∷ codes "--port=0"
    ∷ (codes "--interface=" ++ interface_name)
    ∷ codes "--bind-interfaces"
    ∷ codes "--dhcp-range=192.168.173.50,192.168.173.150,12h"
    ∷ codes "--dhcp-leasefile=/run/castd-dnsmasq.leases"
    ∷ codes "--no-ping"
    ∷ []

-- The address in a line of the lease file, if its second field is the wanted one in lower case.
abbrev pub lease_fields : (Text → Text) → Text → List Text → Option Text
lease_fields lower wanted (expiry ∷ mac ∷ ip ∷ rest) =
    if text_eq (lower mac) wanted then some ip else none
lease_fields lower wanted _ = none

unfoldable pub lease_in_line : (Text → Text) → Text → Text → Option Text
unfolding text_eq
lease_in_line lower wanted line = lease_fields lower wanted (words line)

unfoldable pub lease_in_lines : (Text → Text) → Text → List Text → Option Text
lease_in_lines lower wanted [] = none
lease_in_lines lower wanted (line ∷ lines) = elim (lease_in_line lower wanted line) [
  | none ↦ lease_in_lines lower wanted lines
  | some ip ↦ some ip
]

-- `find_lease_ip`. The file's text is none where it cannot be read; `lower` is `str.lower`.
unfoldable pub find_lease_ip : (Text → Text) → Text → Option Text → Option Text
find_lease_ip lower mac none = none
find_lease_ip lower mac (some text) = lease_in_lines lower (lower mac) (splitlines text)

pub record GroupNetwork : Type 0 where
  pub dnsmasq : Child
  pub interface_name : Option Text

unfoldable pub stop : GroupNetwork → GroupNetwork
stop g = record { dnsmasq = absent; interface_name = none }

-- `subprocess.run(check=True)` raises where the command fails.
pub data StartError : Type 0 where
  called_process_error : StartError

abbrev pub is_named : Option Text → Text → Bool
is_named none name = false
is_named (some n) name = text_eq n name

unfoldable pub serves : Text → GroupNetwork → Bool
unfolding is_running
serves name g = is_running g.dnsmasq && is_named g.interface_name name

-- `start`: the commands that it has run, and the state. `runs` says which commands succeed.
unfoldable pub start :
    (List Text → Bool) → Text → GroupNetwork → Result StartError (List (List Text)) × GroupNetwork
unfolding stop
start runs name g =
    let up : GroupNetwork = record { dnsmasq = alive; interface_name = some name } in
    if serves name g
    then (ok [], g)
    else if runs (build_ip_assign_command name)
    then (ok (build_ip_assign_command name ∷ build_dnsmasq_command name ∷ []), up)
    else (err called_process_error, stop g)
