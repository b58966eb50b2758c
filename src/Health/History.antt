-- ===== src/Health/History.antt =====
-- What castd/health.py reports of the history of a daemon of castd/main.py.
use miracast_device.Base.{
  ℕ, ◌+◌, ◌-◌, ◌*◌, ◌≤◌, ◌<◌, ◌≡◌, refl, ap, ◌∙◌, List, [], ◌∷◌, some, Result, ok, err, leb,
  if◌then◌else◌, codes, arith,
}
use miracast_device.Arbiter.{Event, run}
use miracast_device.Daemon.{Daemon, Fault, deliver}
use miracast_device.Daemon.Consistent.{IsConsistent, deliver-IsConsistent}
use miracast_device.Health.{HealthState, set_state, heartbeat, do_get}

-- A daemon with its health state.
pub record Monitored : Type 0 where
  pub daemon : Daemon
  pub health : HealthState

-- What happens at a moment: an event is handled to its end, or the heartbeat loop passes.
pub data Moment : Type 0 where
  handled : (now : ℕ) → Event → Moment
  loop_passes : (now : ℕ) → Moment

-- The end of `_apply_actions`, which is reached unless an action has raised.
abbrev reported : ℕ → Result Fault (Unit {0}) → Daemon → HealthState → Monitored
reported now (err e) d h = record { daemon = d; health = h }
reported now (ok u) d h = record { daemon = d; health = heartbeat now (set_state d.arbiter h) }

-- `_watchdog_heartbeat_loop` notifies systemd and nothing else.
unfoldable pub pass : Moment → Monitored → Monitored
unfolding set_state heartbeat
pass (handled now e) m = let (r, d) = deliver e m.daemon in reported now r d m.health
pass (loop_passes now) m = m

unfoldable pub pass_all : List Moment → Monitored → Monitored
pass_all [] m = m
pass_all (x ∷ xs) m = pass_all xs (pass x m)

-- The events of a history, and the time of the last of them.
abbrev pub events : List Moment → List Event
events [] = []
events (handled now e ∷ xs) = e ∷ events xs
events (loop_passes now ∷ xs) = events xs

abbrev pub last_event : ℕ → List Moment → ℕ
last_event t [] = t
last_event t (handled now e ∷ xs) = last_event now xs
last_event t (loop_passes now ∷ xs) = last_event t xs

pass_event :
    (now : ℕ) (e : Event) (m : Monitored)
    → IsConsistent m.daemon
    → let n = pass (handled now e) m in
      IsConsistent n.daemon
      × (n.daemon.arbiter ≡ run m.daemon.arbiter (e ∷ []))
      × (n.health ≡ record { state = n.daemon.arbiter; last_heartbeat = now })
unfolding pass run
pass_event now e m h =
    let (fine, c, s) = deliver-IsConsistent e m.daemon h in (rw fine c, rw fine s, rw fine refl)

-- The health state after a history is the arbiter's, as of the last event.
pass_all_lem :
    (xs : List Moment) (m : Monitored)
    → IsConsistent m.daemon
    → m.health.state ≡ m.daemon.arbiter
    → (pass_all xs m).health ≡ record {
      state = run m.daemon.arbiter (events xs);
      last_heartbeat = last_event m.health.last_heartbeat xs;
    }
unfolding pass_all pass run
pass_all_lem [] m h k = ground (arith, k)
pass_all_lem (handled now e ∷ xs) m h k =
    let (c, s, u) = pass_event now e m h in
    pass_all_lem xs (pass (handled now e) m) c (ap (λ x. x.state) u) ∙ ground (arith, s, u)
pass_all_lem (loop_passes now ∷ xs) m h k = pass_all_lem xs m h k

-- Whatever a consistent daemon has been through, the health endpoint answers with the state of the
-- bare arbiter after the same events and the time since the last of them; the status is 200 if a
-- moment later this time is at most 30.0 seconds, rounded, and 503 beyond.
pub do_get_history :
    (round1 : ℕ → ℕ) (xs : List Moment) (m : Monitored) (now later : ℕ)
    → IsConsistent m.daemon
    → m.health.state ≡ m.daemon.arbiter
    → let age = λ (t : ℕ). round1 (t - last_event m.health.last_heartbeat xs) in
      do_get round1 (codes "/health") now later (pass_all xs m).health ≡ record {
        status = if leb (age later) 300 then 200 else 503;
        body =
            some (record {
              state = run m.daemon.arbiter (events xs);
              tenths_since_heartbeat = age now;
            });
      }
unfolding do_get
do_get_history round1 xs m now later h k = rw (pass_all_lem xs m h k) refl

-- Rounding to tenths of a second is off by half a tenth at most.
abbrev pub Rounds : (ℕ → ℕ) → Type 0
Rounds round1 = (ms : ℕ) → (100 * round1 ms ≤ ms + 50) × (ms ≤ 100 * round1 ms + 50)

-- A healthy daemon in a quiet room is reported as unhealthy: when no event has been handled for
-- more than 30.05 seconds, the answer is 503, however often the heartbeat loop has passed.
pub quiet_room_unhealthy :
    (round1 : ℕ → ℕ) (xs : List Moment) (m : Monitored) (now later : ℕ)
    → Rounds round1
    → IsConsistent m.daemon
    → m.health.state ≡ m.daemon.arbiter
    → last_event m.health.last_heartbeat xs + 30050 < later
    → (do_get round1 (codes "/health") now later (pass_all xs m).health).status ≡ 503
quiet_room_unhealthy round1 xs m now later r h k late =
    let (lo, hi) = r (later - last_event m.health.last_heartbeat xs) in
    ap (λ x. x.status) (do_get_history round1 xs m now later h k) ∙ ground (arith, lo, hi, late)
