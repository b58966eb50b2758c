-- ===== src/Arbiter.antt =====
-- castd/fsm/state_machine.py: the table of the Miracast/AirPlay arbiter and `CastArbiter.handle`.
pub mod Policy
use miracast_device.Base.{List, [], ◌∷◌, ◌++◌, Option, none, some}

pub data State : Type 0 where
  idle miracast airplay : State

pub data Event : Type 0 where
  miracast_connected miracast_disconnected airplay_connected airplay_disconnected : Event
  watchdog_timeout : Event

pub data Action : Type 0 where
  show_idle_screen stop_render_pipeline pause_airplay_advertising : Action
  resume_airplay_advertising pause_miracast_discovery resume_miracast_discovery : Action
  force_teardown_miracast force_teardown_airplay log_rejected_connection : Action

pub record Transition : Type 0 where
  pub next_state : State
  pub actions : List Action

abbrev transition : State → List Action → Option Transition
transition s actions = some (record { next_state = s; actions = actions })

-- `_TABLE`, with none for a key that it lacks.
unfoldable pub table : State → Event → Option Transition
table idle miracast_connected =
    transition miracast (pause_airplay_advertising ∷ pause_miracast_discovery ∷ [])
table idle airplay_connected =
    transition airplay (pause_miracast_discovery ∷ stop_render_pipeline ∷ [])
table miracast miracast_disconnected = transition idle (
    stop_render_pipeline ∷ resume_airplay_advertising ∷ resume_miracast_discovery ∷ show_idle_screen
    ∷ [])
table miracast watchdog_timeout = transition idle (
    force_teardown_miracast ∷ stop_render_pipeline ∷ resume_airplay_advertising
    ∷ resume_miracast_discovery ∷ show_idle_screen ∷ [])
table airplay airplay_disconnected =
    transition idle (stop_render_pipeline ∷ resume_miracast_discovery ∷ show_idle_screen ∷ [])
table airplay watchdog_timeout = transition idle (
    force_teardown_airplay ∷ stop_render_pipeline ∷ resume_miracast_discovery ∷ show_idle_screen
    ∷ [])
table _ _ = none

abbrev or_rejected : State → Option Transition → Transition
or_rejected s none = record { next_state = s; actions = log_rejected_connection ∷ [] }
or_rejected s (some t) = t

-- `handle`: the new `self.state` is the transition's `next_state`.
unfoldable pub handle : State → Event → Transition
unfolding table
handle s e = or_rejected s (table s e)

-- A run of the arbiter over a sequence of events: the last state, and all the actions asked for.
unfoldable pub run : State → List Event → State
run s [] = s
run s (e ∷ es) = run (handle s e).next_state es

unfoldable pub run_actions : State → List Event → List Action
run_actions s [] = []
run_actions s (e ∷ es) = (handle s e).actions ++ run_actions (handle s e).next_state es
