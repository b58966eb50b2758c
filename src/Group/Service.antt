-- ===== src/Group/Service.antt =====
-- Starting the services of a group in castd/p2p/group_network.py.
use miracast_device.Base.{
  ◌≡◌, refl, true, Bool, List, [], some, none, Text, Option, ok, arith, Bool-cases, inl, inr,
  text_eq_iff, text_eq_refl,
}
use miracast_device.Process.{alive}
use miracast_device.Group.{GroupNetwork, is_named, serves, start}

is_named_lem : (o : Option Text) (name : Text) → is_named o name ≡ true → o ≡ some name
is_named_lem none name h = cc
is_named_lem (some n) name h = rw ((text_eq_iff n name).0 h) refl

serves_lem :
    (name : Text) (g : GroupNetwork)
    → serves name g ≡ true
    → (g.dnsmasq ≡ alive) × (g.interface_name ≡ some name)
unfolding serves
serves_lem name g h =
    let named : is_named g.interface_name name ≡ true = ground (arith, h) in
    (ground (arith, h), is_named_lem g.interface_name name named)

serves_up :
    (name : Text) (g : GroupNetwork)
    → g.dnsmasq ≡ alive
    → g.interface_name ≡ some name
    → serves name g ≡ true
unfolding serves
serves_up name g h k = rw (h, k, text_eq_refl name)

pub started :
    (runs : List Text → Bool) (name : Text) (g : GroupNetwork) (commands : List (List Text))
    → (start runs name g).0 ≡ ok commands
    → ((start runs name g).1.dnsmasq ≡ alive) × ((start runs name g).1.interface_name ≡ some name)
started runs name g commands h = elim (Bool-cases (serves name g)) [
  | inl s ↦ unfold start in rw s (serves_lem name g s)
  | inr s ↦ unfold start in ground (arith, s, h)
]

-- When `start` does not raise, the DHCP server runs for the interface that was asked for, and a
-- second `start` for it runs no command and changes nothing, whatever its commands would do.
pub start_idempotent :
    (runs again : List Text → Bool) (name : Text) (g : GroupNetwork) (commands : List (List Text))
    → (start runs name g).0 ≡ ok commands
    → let g' = (start runs name g).1 in
      (g'.dnsmasq ≡ alive) × (g'.interface_name ≡ some name) × (start again name g' ≡ (ok [], g'))
start_idempotent runs again name g commands h =
    let (up, named) = started runs name g commands h in
    (up, named, same (start runs name g).1 (serves_up name _ up named))
  where
    same : (g' : GroupNetwork) → serves name g' ≡ true → start again name g' ≡ (ok [], g')
    same g' s = unfold start in rw s refl
