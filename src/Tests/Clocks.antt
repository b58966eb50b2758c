-- ===== src/Tests/Clocks.antt =====
-- A concrete history of the health endpoint of castd/health.py, and of the threads of
-- castd/main.py.
use miracast_device.Base.{
  ℕ, ◌+◌, ◌/◌, ◌≡◌, refl, true, false, List, [], ◌∷◌, none, some, codes, arith,
}
use miracast_device.Arbiter.{
  idle, airplay_connected, airplay_disconnected, miracast_connected, miracast_disconnected,
}
use miracast_device.Process.{absent, alive}
use miracast_device.Daemon.{Daemon, on_screen}
use miracast_device.Daemon.Consistent.{IsConsistent}
use miracast_device.Daemon.Threads.{Threads, Reach, alone, in_session, IsMixed, actions_race}
use miracast_device.Health.{do_get}
use miracast_device.Health.History.{
  Monitored, Moment, handled, loop_passes, pass_all, Rounds, quiet_room_unhealthy,
}

abbrev room : Daemon
room = record {
  arbiter = idle;
  render = record { child = absent; first_frame_seen = false };
  uxplay = some (record { child = alive; expect_exit = false });
  health = idle;
  published = true;
  painted = none;
  footer = none;
  credentials = none;
  control_sock = false;
  render_pipeline_expected = false;
  screen = on_screen;
  takes_ies = true;
}

room-IsConsistent : IsConsistent room
room-IsConsistent = record {
  airplay_open = refl;
  discovery = refl;
  reported = refl;
  screen_works = refl;
  bus_takes = refl;
}

abbrev monitored : Monitored
monitored = record { daemon = room; health = record { state = idle; last_heartbeat = 0 } }

abbrev half_up : ℕ → ℕ
half_up ms = (ms + 50) / 100

half_up-Rounds : Rounds half_up
half_up-Rounds ms = (omega arith, omega arith)

abbrev visit : List Moment
visit =
    handled 1000 airplay_connected
    ∷ loop_passes 10000
    ∷ handled 12000 airplay_disconnected
    ∷ loop_passes 20000
    ∷ loop_passes 30000
    ∷ loop_passes 40000
    ∷ []

quiet_room_unhealthy_example :
    (do_get half_up (codes "/health") 45000 45001 (pass_all visit monitored).health).status ≡ 503
quiet_room_unhealthy_example =
    quiet_room_unhealthy half_up visit monitored 45000 45001 half_up-Rounds room-IsConsistent refl
      (omega arith)

actions_race_example :
    (t : Threads) × Reach
      (alone (in_session room true))
      (miracast_disconnected ∷ miracast_connected ∷ [])
      t
    × IsMixed t
actions_race_example = actions_race room true
