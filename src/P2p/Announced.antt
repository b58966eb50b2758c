-- ===== src/P2p/Announced.antt =====
-- The availability that sources discover, from the actions of the arbiter in castd/main.py
-- through castd/p2p/dbus_go.py to the bytes of castd/p2p/wfd_ie.py.
use miracast_device.Base.{◌≡◌, refl, Bool, true, false, List, [], ◌∷◌, ◌++◌, some, ok, arith}
use miracast_device.Arbiter.{
  State, idle, miracast, airplay, Event, miracast_connected, miracast_disconnected,
  airplay_connected, airplay_disconnected, watchdog_timeout, Action, pause_miracast_discovery,
  resume_miracast_discovery, handle, run, run_actions,
}
use miracast_device.Wfd.{Bytes}
use miracast_device.P2p.{Bus, P2PGroupOwner, configure, set_session_available}
use miracast_device.P2p.Availability.{Announces, set_session_available-Announces}

-- The branch of `_apply_actions` that flips the availability; the other actions do not reach the
-- owner of the group.
unfoldable pub announce : Bus → Action → P2PGroupOwner → P2PGroupOwner
announce bus pause_miracast_discovery o = (set_session_available bus false o).1
announce bus resume_miracast_discovery o = (set_session_available bus true o).1
announce bus _ o = o

unfoldable pub announce_all : Bus → List Action → P2PGroupOwner → P2PGroupOwner
unfolding announce
announce_all bus [] o = o
announce_all bus (a ∷ actions) o = announce_all bus actions (announce bus a o)

announce_all-append :
    (bus : Bus) (xs ys : List Action) (o : P2PGroupOwner)
    → announce_all bus (xs ++ ys) o ≡ announce_all bus ys (announce_all bus xs o)
unfolding announce_all
announce_all-append bus [] ys o = refl
announce_all-append bus (x ∷ xs) ys o = announce_all-append bus xs ys (announce bus x o)

-- The element that wpa_supplicant has been told announces the availability.
pub record Tells (o : P2PGroupOwner) (available : Bool) : Type 0 where
  pub bytes : Bytes
  pub told : o.wfd_ies ≡ some bytes
  pub announces : Announces bytes available

abbrev pub is_idle : State → Bool
is_idle idle = true
is_idle _ = false

module _ (bus : Bus) (takes : (bytes : Bytes) → bus.set_wfd_ies bytes ≡ true) where
  set_session_available-Tells :
      (available : Bool) (o : P2PGroupOwner)
      → Tells (set_session_available bus available o).1 available
  set_session_available-Tells available o =
      let (bytes, announces, set) = set_session_available-Announces bus available o in
      record { bytes = bytes; told = ground (arith, set, takes bytes); announces = announces }

  handle-Tells :
      (s : State) (e : Event) (o : P2PGroupOwner)
      → Tells o (is_idle s)
      → Tells (announce_all bus (handle s e).actions o) (is_idle (handle s e).next_state)
  unfolding handle announce_all
  handle-Tells idle miracast_connected o h = set_session_available-Tells false o
  handle-Tells idle airplay_connected o h = set_session_available-Tells false o
  handle-Tells miracast miracast_disconnected o h = set_session_available-Tells true o
  handle-Tells miracast watchdog_timeout o h = set_session_available-Tells true o
  handle-Tells airplay airplay_disconnected o h = set_session_available-Tells true o
  handle-Tells airplay watchdog_timeout o h = set_session_available-Tells true o
  handle-Tells idle miracast_disconnected o h = h
  handle-Tells idle airplay_disconnected o h = h
  handle-Tells idle watchdog_timeout o h = h
  handle-Tells miracast miracast_connected o h = h
  handle-Tells miracast airplay_connected o h = h
  handle-Tells miracast airplay_disconnected o h = h
  handle-Tells airplay miracast_connected o h = h
  handle-Tells airplay airplay_connected o h = h
  handle-Tells airplay miracast_disconnected o h = h

  run-Tells :
      (s : State) (es : List Event) (o : P2PGroupOwner)
      → Tells o (is_idle s)
      → Tells (announce_all bus (run_actions s es) o) (is_idle (run s es))
  unfolding run run_actions announce_all
  run-Tells s [] o h = h
  run-Tells s (e ∷ es) o h =
      rw (announce_all-append bus (handle s e).actions (run_actions (handle s e).next_state es) o) (
        run-Tells (handle s e).next_state es (announce_all bus (handle s e).actions o)
          (handle-Tells s e o h))

  configure-Tells : (o o' : P2PGroupOwner) → configure bus o ≡ (ok tt, o') → Tells o' true
  unfolding configure set_session_available
  configure-Tells o o' h =
      let same : o' ≡ (set_session_available bus true o).1 = ground (arith, h) in
      rw same (set_session_available-Tells true o)

-- When the owner of the group has been configured, and wpa_supplicant takes the element each time,
-- then after any events, with the actions of the arbiter applied in order, a source that reads the
-- element finds the sink available exactly if nobody holds the display.
pub availability_follows_arbiter :
    (bus : Bus)
    → ((bytes : Bytes) → bus.set_wfd_ies bytes ≡ true)
    → (o o' : P2PGroupOwner) (es : List Event) → configure bus o ≡ (ok tt, o')
    → Tells (announce_all bus (run_actions idle es) o') (is_idle (run idle es))
availability_follows_arbiter bus takes o o' es h =
    run-Tells bus takes idle es o' (configure-Tells bus takes o o' h)
