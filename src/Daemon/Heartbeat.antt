-- ===== src/Daemon/Heartbeat.antt =====
-- `_watchdog_heartbeat_loop` of castd/main.py: what systemd is told.
use miracast_device.Base.{
  ℕ, Bool, true, false, List, [], ◌∷◌, Option, some, Text, Result, ok, err, codes, map,
}
use miracast_device.Base.Utf8
use miracast_device.Arbiter.{State, idle, miracast, airplay, run}
use miracast_device.SdNotify.{NotifyError, os_error, notify}
use miracast_device.Daemon.{Daemon}
use miracast_device.Daemon.Consistent.{Incident, meet_all, seen}

-- `state.name`.
unfoldable pub state_name : State → Text
state_name idle = codes "IDLE"
state_name miracast = codes "MIRACAST"
state_name airplay = codes "AIRPLAY"

-- The outcome of `notify`: the datagram and where it goes, if one is sent.
abbrev Sent : Type 0
Sent = Result NotifyError (Option (Text × List ℕ))

-- The next pass comes unless `notify` has raised.
abbrev unless_raised : Sent → List Sent → List Sent
unless_raised (err e) later = err e ∷ []
unless_raised (ok sent) later = ok sent ∷ later

-- A pass of the loop: whether the socket of systemd takes its datagram, and what happens to the daemon in the
-- sleep after it.
abbrev pub Beat : Type 0
Beat = Bool × List Incident

-- The outcome of each pass; the one whose `notify` raises is the last.
unfoldable pub watchdog_heartbeat_loop : Option Text → List Beat → Daemon → List Sent
unfolding notify state_name meet_all
watchdog_heartbeat_loop socket_path [] d = []
watchdog_heartbeat_loop socket_path ((delivered, is) ∷ passes) d =
    unless_raised (notify delivered socket_path false true (some (state_name d.arbiter)))
      (watchdog_heartbeat_loop socket_path passes (meet_all is d).1)

-- What a datagram of the loop is to say.
abbrev pub report : State → Text
report idle = codes "WATCHDOG=1\nSTATUS=IDLE"
report miracast = codes "WATCHDOG=1\nSTATUS=MIRACAST"
report airplay = codes "WATCHDOG=1\nSTATUS=AIRPLAY"

-- What the passes are to come to, from the state of the arbiter at the first: a report for each
-- datagram that is taken, and `OSError` at the first that is not.
abbrev pub reports : Text → State → List Beat → List Sent
reports address s [] = []
reports address s ((false, is) ∷ passes) = err os_error ∷ []
reports address s ((true, is) ∷ passes) =
    ok (some (address, report s)) ∷ reports address (run s (map seen is)) passes
