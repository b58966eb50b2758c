-- ===== src/Daemon/Consistent.antt =====
-- What castd/main.py advertises agrees with the arbiter, as long as uxplay does not die by itself.
use miracast_device.Base.{
  ◌≡◌, refl, ◌∙◌, ap, Bool, true, false, List, [], ◌∷◌, Option, none, some, ok, arith, map,
  if◌then◌else◌,
}
use miracast_device.Arbiter.{State, idle, miracast, airplay_disconnected, Event, handle, run}
use miracast_device.Process.{Child, absent, alive, exited, is_running, UxPlayProcess}
use miracast_device.Daemon.{
  Daemon, on_screen, Act, ◌>>=◌, ◌>>◌, done, deliver, on_uxplay_exited, restart_uxplay,
}

-- uxplay dies if it runs, and its exit is handled to the end with no other event between.
unfoldable pub crash : Act (Unit {0})
unfolding on_uxplay_exited restart_uxplay
crash d = elim d.uxplay [
  | none ↦ done d
  | some u ↦
      if is_running u.child
      then (on_uxplay_exited >>= restart_uxplay)
          (record d { uxplay = some (record u { child = exited }) })
      else done d
]

-- What happens to the daemon: an event for the arbiter, or the death of uxplay.
pub data Incident : Type 0 where
  event : Event → Incident
  uxplay_dies : Incident

unfoldable pub meet : Incident → Act (Unit {0})
unfolding deliver crash
meet (event e) = deliver e
meet uxplay_dies = crash

-- Each incident is handled to its end before the next.
unfoldable pub meet_all : List Incident → Act (Unit {0})
meet_all [] = done
meet_all (i ∷ is) = do meet i; meet_all is

-- The event that the arbiter sees of an incident.
abbrev pub seen : Incident → Event
seen (event e) = e
seen uxplay_dies = airplay_disconnected

abbrev pub is_idle : State → Bool
is_idle idle = true
is_idle _ = false

abbrev pub uxplay_child : Option UxPlayProcess → Option Child
uxplay_child none = none
uxplay_child (some u) = some u.child

abbrev pub expected_child : State → Child
expected_child miracast = absent
expected_child _ = alive

-- uxplay runs exactly when Miracast does not hold the display, the WFD element announces a free
-- sink exactly when nobody holds it, and the health endpoint shows the arbiter's state. An idle screen
-- is shown, and the bus takes what is announced.
pub record IsConsistent (d : Daemon) : Type 0 where
  pub airplay_open : uxplay_child d.uxplay ≡ some (expected_child d.arbiter)
  pub discovery : d.published ≡ is_idle d.arbiter
  pub reported : d.health ≡ d.arbiter
  pub screen_works : d.screen ≡ on_screen
  pub bus_takes : d.takes_ies ≡ true

meet-IsConsistent :
    (i : Incident) (d : Daemon)
    → IsConsistent d
    → ((meet i d).0 ≡ ok tt)
      × IsConsistent (meet i d).1
      × ((meet i d).1.arbiter ≡ (handle d.arbiter (seen i)).next_state)
unfolding meet
meet-IsConsistent i d h = ground arith

pub deliver-IsConsistent :
    (e : Event) (d : Daemon)
    → IsConsistent d
    → ((deliver e d).0 ≡ ok tt)
      × IsConsistent (deliver e d).1
      × ((deliver e d).1.arbiter ≡ (handle d.arbiter e).next_state)
deliver-IsConsistent e d h = unfold meet in meet-IsConsistent (event e) d h

pub bind-ok :
    {A B : Type 0} (m : Act A) (f : A → Act B) (d : Daemon) (a : A)
    → (m d).0 ≡ ok a
    → (m >>= f) d ≡ f a (m d).1
bind-ok m f d a h = rw h refl

-- From a consistent daemon, no sequence of arbiter events and deaths of uxplay makes a handler
-- raise; the daemon stays consistent, and its arbiter ends in the state in which the bare arbiter
-- ends, where the death of uxplay counts as an AirPlay disconnection.
pub meet_all-IsConsistent :
    (is : List Incident) (d : Daemon)
    → IsConsistent d
    → ((meet_all is d).0 ≡ ok tt)
      × IsConsistent (meet_all is d).1
      × ((meet_all is d).1.arbiter ≡ run d.arbiter (map seen is))
unfolding meet_all run
meet_all-IsConsistent [] d h = (refl, h, refl)
meet_all-IsConsistent (i ∷ is) d h =
    let s = meet-IsConsistent i d h in
    let t = meet_all-IsConsistent is (meet i d).1 s.1 in
    rw (bind-ok (meet i) (λ _. meet_all is) d tt s.0)
      (t.0, t.1, t.2 ∙ ap (λ x. run x (map seen is)) s.2)
