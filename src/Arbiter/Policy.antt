-- ===== src/Arbiter/Policy.antt =====
-- The arbitration policy of castd/fsm/state_machine.py: first come, first served.
use mathlib.Core.List.{Memᴰ, get_last?}
use miracast_device.Base.{
  List, [], ◌∷◌, ◌≡◌, ◌≢◌, ◌⊎◌, inl, inr, refl, arith, Bool, true, false, length, replicate, some,
  All,
}
use miracast_device.Arbiter.{
  State, idle, miracast, airplay, Event, miracast_disconnected, airplay_disconnected,
  watchdog_timeout, show_idle_screen, stop_render_pipeline, resume_airplay_advertising,
  resume_miracast_discovery, log_rejected_connection, handle, run, run_actions,
}

-- The events that end the session of a holder of the display.
abbrev pub ends : State → Event → Bool
ends miracast miracast_disconnected = true
ends airplay airplay_disconnected = true
ends miracast watchdog_timeout = true
ends airplay watchdog_timeout = true
ends _ _ = false

handle_held :
    (s : State) (e : Event)
    → s ≢ idle
    → ends s e ≡ false
    → ((handle s e).next_state ≡ s) × ((handle s e).actions ≡ log_rejected_connection ∷ [])
unfolding handle
handle_held s e h k = ground arith

-- First connect wins: while no event ends the session of the protocol that holds the display, the
-- holder stays, and each event is answered with one logged rejection and nothing else.
pub run_keeps_holder :
    (s : State) (es : List Event)
    → s ≢ idle
    → All (λ e. ends s e ≡ false) es
    → (run s es ≡ s) × (run_actions s es ≡ replicate (length es) log_rejected_connection)
unfolding run run_actions
run_keeps_holder s [] h k = (refl, refl)
run_keeps_holder s (e ∷ es) h k = ground (arith, handle_held s e h k.0, run_keeps_holder s es h k.1)

-- An event either leaves the state alone and asks for the logged rejection alone, or it takes the
-- display from idle to one holder, or from that holder back to idle on an event that ends its
-- session. The display never passes from one protocol to the other in one step.
pub handle_cases :
    (s : State) (e : Event)
    → (((handle s e).next_state ≡ s) × ((handle s e).actions ≡ log_rejected_connection ∷ []))
      ⊎ ((s ≡ idle) × ((handle s e).next_state ≢ idle))
      ⊎ ((ends s e ≡ true) × ((handle s e).next_state ≡ idle))
unfolding handle
handle_cases s e = ground arith

ruleset places = (Memᴰ.head, Memᴰ.tail, refl)

-- Whenever the display is given up, the render pipeline is stopped, discovery is resumed, AirPlay
-- advertising is resumed if Miracast held the display, and the idle screen is shown last.
pub release_actions :
    (s : State) (e : Event)
    → s ≢ idle
    → (handle s e).next_state ≡ idle
    → Memᴰ stop_render_pipeline (handle s e).actions
      × Memᴰ resume_miracast_discovery (handle s e).actions
      × ((s ≡ airplay) ⊎ Memᴰ resume_airplay_advertising (handle s e).actions)
      × (get_last? (handle s e).actions ≡ some show_idle_screen)
unfolding handle
release_actions idle _ h k = absurd (h refl)
release_actions miracast miracast_disconnected h k =
    (search places, search places, inr (search places), refl)
release_actions miracast watchdog_timeout h k =
    (search places, search places, inr (search places), refl)
release_actions airplay airplay_disconnected h k = (search places, search places, inl refl, refl)
release_actions airplay watchdog_timeout h k = (search places, search places, inl refl, refl)
release_actions _ _ h k = cc
