-- ===== src/Daemon/Presenting.antt =====
-- An AirPlay session of castd/main.py: the callbacks of castd/airplay/uxplay.py, wired to the
-- daemon.
use miracast_device.Base.{Bool, List, [], ◌∷◌, if◌then◌else◌}
use miracast_device.Arbiter.{State, idle, airplay, airplay_connected, airplay_disconnected}
use miracast_device.Clients.{
  Callback, on_client_connected, on_client_disconnected, on_process_ended,
}
use miracast_device.Daemon.{Daemon, Act, ◌>>◌, done, on_airplay_connected, on_airplay_disconnected}
use miracast_device.Daemon.Consistent.{Incident, event, uxplay_dies, crash}

-- The methods that `_start_group` gives to `UxPlayProcess`. The end of the output that is reported is
-- the death of the process.
unfoldable pub call_back : Callback → Act (Unit {0})
unfolding on_airplay_connected on_airplay_disconnected crash
call_back on_client_connected = on_airplay_connected
call_back on_client_disconnected = on_airplay_disconnected
call_back on_process_ended = crash

unfoldable pub call_back_all : List Callback → Act (Unit {0})
unfolding call_back
call_back_all [] = done
call_back_all (c ∷ cs) = do call_back c; call_back_all cs

abbrev incident : Callback → Incident
incident on_client_connected = event airplay_connected
incident on_client_disconnected = event airplay_disconnected
incident on_process_ended = uxplay_dies

abbrev presenter : Bool → State
presenter b = if b then airplay else idle
