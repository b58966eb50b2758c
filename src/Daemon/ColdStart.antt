-- ===== src/Daemon/ColdStart.antt =====
-- The two guards of castd/main.py over a running session: `_recover_render_cold_start`, which
-- restarts a render pipeline without a first frame, and `_stream_watch_tick`, which ends a session
-- whose stream has died.
use miracast_device.Base.{
  ℕ, ◌≡◌, ◌⊎◌, refl, Bool, true, false, List, [], ◌∷◌, Option, none, some, ok, arith, not, ◌&&◌,
  ◌||◌, All, Bool-cases, inl, inr,
}
use miracast_device.Arbiter.{State, miracast}
use miracast_device.Process.{absent, alive, stop_render, is_running}
use miracast_device.StreamWatchdog.{StreamWatchdog, observe}
use miracast_device.Daemon.{
  Daemon, Attempt, Act, is_miracast, is_frozen, restart_render, render_stop,
  recover_render_cold_start, stream_watch_tick,
}

-- The render pipeline runs only while Miracast holds the display.
abbrev pub IsGuarded : Daemon → Type 0
IsGuarded d = (is_running d.render.child ≡ false) ⊎ (d.arbiter ≡ miracast)

-- The other threads keep the guard, and start no render pipeline while this one stops it.
pub record IsFair (a : Attempt) : Type 0 where
  pub wait_keeps : (d : Daemon) → IsGuarded d → IsGuarded (a.during_wait d)
  pub stop_keeps : (d : Daemon) → d.render.child ≡ absent → (a.during_stop d).render.child ≡ absent

abbrev Keeps : Act (Unit {0}) → Type 0
Keeps m = (d : Daemon) → IsGuarded d → ((m d).0 ≡ ok tt) × IsGuarded (m d).1

is_miracast-holds : (s : State) → is_miracast s ≡ true → s ≡ miracast
is_miracast-holds s h = ground arith

restart-Keeps :
    (again : Act (Unit {0})) (d : Daemon)
    → Keeps again
    → d.render.child ≡ absent
    → ((restart_render again d).0 ≡ ok tt) × IsGuarded (restart_render again d).1
unfolding restart_render
restart-Keeps again d k h = elim (Bool-cases (is_miracast d.arbiter)) [
  | inl held ↦
      let started : Daemon = record d {
        render = record { child = alive; first_frame_seen = false };
        render_pipeline_expected = true;
      } in
      rw (held, h) (k started (inr (is_miracast-holds d.arbiter held)))
  | inr free ↦ rw free (refl, inl (unfold is_running in ground (arith, h)))
]

-- However often the pipeline is restarted, and whatever the other threads do in between as long as
-- they keep the guard themselves and start no pipeline while this thread stops it: the recovery
-- does not raise, and it leaves no pipeline running for a session that has ended.
pub recover_keeps_guard :
    (attempts : List Attempt) (d : Daemon)
    → All IsFair attempts
    → IsGuarded d
    → ((recover_render_cold_start attempts d).0 ≡ ok tt)
      × IsGuarded (recover_render_cold_start attempts d).1
unfolding recover_render_cold_start
recover_keeps_guard [] d f g = (refl, g)
recover_keeps_guard (a ∷ rest) d f g = elim (Bool-cases (is_frozen a (a.during_wait d))) [
  | inl frozen ↦ rw frozen (
      restart-Keeps (recover_render_cold_start rest) _ (λ e. recover_keeps_guard rest e f.1)
        (f.0.stop_keeps _ (unfold render_stop stop_render in ground arith)))
  | inr fine ↦ rw fine (refl, f.0.wait_keeps d g)
]

-- Whether a sample shows a stalled stream.
abbrev pub shows_stall : StreamWatchdog → Option ℕ → ℕ → Bool
shows_stall w none now = false
shows_stall w (some rx) now = (observe w rx now).1

-- A pass closes the control socket exactly when there is one, Miracast holds the display, this
-- session's render pipeline has been started, and the pipeline has died or the sample shows a
-- stall. Nothing of the daemon changes but the flag for the pipeline, which a pass only drops.
pub stream_watch_tick_trips :
    (w : StreamWatchdog) (rx : Option ℕ) (now : ℕ) (d : Daemon)
    → let t = stream_watch_tick w rx now d in
      (t.tripped ≡ (
        d.control_sock
        && is_miracast d.arbiter
        && d.render_pipeline_expected
        && (not (is_running d.render.child) || shows_stall w rx now)))
      × (t.daemon ≡ record d {
        render_pipeline_expected =
            d.render_pipeline_expected && is_miracast d.arbiter && is_running d.render.child;
      })
unfolding stream_watch_tick
stream_watch_tick_trips w rx now d = ground arith
