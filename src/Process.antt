-- ===== src/Process.antt =====
-- The child processes that castd owns: castd/render/gstreamer.py (`RenderProcess`) and
-- castd/airplay/uxplay.py (`UxPlayProcess`). A child that is told to stop is taken to stop, by
-- SIGTERM or by SIGKILL.
pub mod Pipeline
pub mod Arguments
use miracast_device.Base.{Bool, true, false, Result, ok, err, if◌then◌else◌}

-- `_proc`: None, a child that has exited, or a running child.
pub data Child : Type 0 where
  absent exited alive : Child

-- `is_running`.
unfoldable pub is_running : Child → Bool
is_running absent = false
is_running exited = false
is_running alive = true

pub data ProcessError : Type 0 where
  already_running : ProcessError

pub record RenderProcess : Type 0 where
  pub child : Child
  pub first_frame_seen : Bool

unfoldable pub start_render : RenderProcess → Result ProcessError RenderProcess
unfolding is_running
start_render r =
    if is_running r.child
    then err already_running
    else ok (record { child = alive; first_frame_seen = false })

unfoldable pub stop_render : RenderProcess → RenderProcess
stop_render r = elim r.child [
  | absent ↦ r
  | exited ↦ record { child = absent; first_frame_seen = false }
  | alive ↦ record { child = absent; first_frame_seen = false }
]

pub record UxPlayProcess : Type 0 where
  pub child : Child
  pub expect_exit : Bool

unfoldable pub start_uxplay : UxPlayProcess → Result ProcessError UxPlayProcess
unfolding is_running
start_uxplay u =
    if is_running u.child
    then err already_running
    else ok (record { child = alive; expect_exit = false })

unfoldable pub stop_uxplay : UxPlayProcess → UxPlayProcess
stop_uxplay u = elim u.child [
  | absent ↦ u
  | exited ↦ record { child = absent; expect_exit = true }
  | alive ↦ record { child = absent; expect_exit = true }
]
