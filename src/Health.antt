-- ===== src/Health.antt =====
-- castd/health.py: the state that the health endpoint reports, and its answers. Times are in
-- milliseconds of the monotonic clock. `round1` is `round(x, 1)` of a time, in tenths of a second.
pub mod History
use miracast_device.Base.{
  ℕ, ◌-◌, ◌*◌, Bool, true, false, Option, none, some, Text, leb, if◌then◌else◌, codes, text_eq,
}
use miracast_device.Arbiter.{State, idle}

pub record HealthState : Type 0 where
  pub state : State
  pub last_heartbeat : ℕ

unfoldable pub new : ℕ → HealthState
new now = record { state = idle; last_heartbeat = now }

unfoldable pub set_state : State → HealthState → HealthState
set_state s h = record h { state = s }

unfoldable pub heartbeat : ℕ → HealthState → HealthState
heartbeat now h = record h { last_heartbeat = now }

pub record Snapshot : Type 0 where
  pub state : State
  pub tenths_since_heartbeat : ℕ

unfoldable pub snapshot : (ℕ → ℕ) → ℕ → HealthState → Snapshot
snapshot round1 now h = record {
  state = h.state;
  tenths_since_heartbeat = round1 (now - h.last_heartbeat);
}

unfoldable pub is_healthy : (ℕ → ℕ) → ℕ → ℕ → HealthState → Bool
unfolding snapshot
is_healthy round1 max_heartbeat_age_s now h =
    leb (snapshot round1 now h).tenths_since_heartbeat (10 * max_heartbeat_age_s)

-- The status and the snapshot in the body.
pub record Response : Type 0 where
  pub status : ℕ
  pub body : Option Snapshot

-- `do_GET`: the snapshot of the body is taken first, at `now`, and that of the status at `later`.
unfoldable pub do_get : (ℕ → ℕ) → Text → ℕ → ℕ → HealthState → Response
unfolding snapshot is_healthy text_eq
do_get round1 path now later h =
    if text_eq path (codes "/health")
    then record {
      status = if is_healthy round1 30 later h then 200 else 503;
      body = some (snapshot round1 now h);
    }
    else record { status = 404; body = none }
